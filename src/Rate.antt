-- ===== src/Rate.antt =====
-- src/rate_controller.hpp and src/rate_controller.cpp: the rate of the chunks. The arithmetic of
-- `double` is an interface; times are in milliseconds.
use cherupi_v4l.Base.{
  Bool, List, [], arith, false, if◌then◌else◌, length, ltb, suc, true, ℕ, ◌++◌, ◌-◌, ◌∷◌, ◌≡◌, ◌≤◌,
}

pub record Doubles : Type 1 where
  pub Double : Type 0
  pub lt : Double → Double → Bool
  pub times : Double → Double → Double
  -- 0.7 * a + 0.3 * b
  pub smooth : Double → Double → Double
  pub min_rate : Double  -- 50.0
  pub max_rate : Double  -- 4000.0, also the initial rate
  pub increase : Double  -- 1.1
  pub decrease : Double  -- 0.5
  pub sharp_decrease : Double  -- 0.5 * 0.7

-- What the proofs rely on: `<` on doubles is irreflexive and asymmetric, and 50.0 < 4000.0.
pub record IsOrdered (F : Doubles) : Type 0 where
  pub irreflexive : (a : F.Double) → F.lt a a ≡ false
  pub asymmetric : (a b : F.Double) → F.lt a b ≡ true → F.lt b a ≡ false
  pub bounds_apart : F.lt F.min_rate F.max_rate ≡ true

abbrev window_size : ℕ
window_size = 20

unfoldable pub trim_window : ℕ → List ℕ → List ℕ
trim_window size [] = []
trim_window size (t ∷ ts) = if ltb size (length (t ∷ ts)) then trim_window size ts else t ∷ ts

length-trim_window : (size : ℕ) (ts : List ℕ) → length (trim_window size ts) ≤ size
unfolding trim_window
length-trim_window size [] = omega arith
length-trim_window size (t ∷ ts) = ground (arith, length-trim_window size ts)

pub data RateEvent : Type 0 where
  sent_at pressed_at : ℕ → RateEvent
  resets : RateEvent

module _ (F : Doubles) where
  open F use {Double, lt, times, smooth, min_rate, max_rate, increase, decrease, sharp_decrease}

  pub record Controller : Type 0 where
    pub chunk_send_times : List ℕ  -- oldest first
    pub last_backpressure_time : ℕ
    pub current_rate : Double
    pub smoothed_rate : Double
    pub consecutive_successes : ℕ
    pub backpressure_events : ℕ

  -- std::max(MIN, std::min(MAX, rate))
  unfoldable pub clamp_rate : Double → Double
  clamp_rate rate =
      let upper = if lt rate max_rate then rate else max_rate in
      if lt min_rate upper then upper else min_rate

  unfoldable pub adjust_rate : Double → Controller → Controller
  adjust_rate factor c =
      let rate = clamp_rate (times c.current_rate factor) in
      record c { current_rate = rate; smoothed_rate = smooth c.smoothed_rate rate }

  unfoldable pub record_sent : ℕ → Controller → Controller
  record_sent now c =
      let c' = record c {
        chunk_send_times = trim_window window_size (c.chunk_send_times ++ now ∷ []);
        consecutive_successes = suc c.consecutive_successes;
      } in
      if ltb 10 (suc c.consecutive_successes)
      then record (adjust_rate increase c') { consecutive_successes = 0 }
      else c'

  unfoldable pub record_backpressure : ℕ → Controller → Controller
  record_backpressure now c =
      let c' = record c {
        last_backpressure_time = now;
        backpressure_events = suc c.backpressure_events;
        consecutive_successes = 0;
      } in
      if ltb (now - c.last_backpressure_time) 1000
      then adjust_rate sharp_decrease c'
      else adjust_rate decrease c'

  unfoldable pub reset_rate : Controller → Controller
  reset_rate c = record c {
    chunk_send_times = [];
    current_rate = max_rate;
    smoothed_rate = max_rate;
    consecutive_successes = 0;
    backpressure_events = 0;
  }

  unfoldable pub observe : RateEvent → Controller → Controller
  observe (sent_at now) c = record_sent now c
  observe (pressed_at now) c = record_backpressure now c
  observe resets c = reset_rate c

  unfoldable pub observe_all : List RateEvent → Controller → Controller
  observe_all [] c = c
  observe_all (e ∷ es) c = observe_all es (observe e c)

  pub record IsBounded (c : Controller) : Type 0 where
    pub not_slow : lt c.current_rate min_rate ≡ false
    pub not_fast : lt max_rate c.current_rate ≡ false
    pub few_times : length c.chunk_send_times ≤ window_size
    pub few_successes : c.consecutive_successes ≤ 10

  module _ (v : IsOrdered F) where
    clamp_rate-bounds :
        (rate : Double)
        → (lt (clamp_rate rate) min_rate ≡ false) × (lt max_rate (clamp_rate rate) ≡ false)
    unfolding clamp_rate
    clamp_rate-bounds rate = ground (
      arith,
      v.irreflexive min_rate,
      v.irreflexive max_rate,
      v.bounds_apart,
      v.asymmetric min_rate max_rate,
      v.asymmetric min_rate rate,
      v.asymmetric rate max_rate,
    )

    observe-IsBounded : (e : RateEvent) (c : Controller) → IsBounded c → IsBounded (observe e c)
    unfolding observe record_sent record_backpressure adjust_rate reset_rate
    observe-IsBounded (sent_at now) c w = ground (
      arith,
      clamp_rate-bounds (times c.current_rate increase),
      length-trim_window window_size (c.chunk_send_times ++ now ∷ []),
    )
    observe-IsBounded (pressed_at now) c w = ground (
      arith,
      clamp_rate-bounds (times c.current_rate decrease),
      clamp_rate-bounds (times c.current_rate sharp_decrease),
    )
    observe-IsBounded resets c w =
        ground (arith, v.irreflexive max_rate, v.asymmetric min_rate max_rate, v.bounds_apart)

    -- From a controller within these bounds, whatever chunks are sent and whenever backpressure
    -- arises or the controller is reset, the rate stays between its bounds, the window holds at
    -- most its 20 times, and the count of successes stays at 10 or below.
    pub observe_all-IsBounded :
        (es : List RateEvent) (c : Controller) → IsBounded c → IsBounded (observe_all es c)
    unfolding observe_all
    observe_all-IsBounded [] c w = w
    observe_all-IsBounded (e ∷ es) c w =
        observe_all-IsBounded es (observe e c) (observe-IsBounded e c w)
