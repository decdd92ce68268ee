-- ===== src/Server/Answers.antt =====
-- What counts as an answer to a message, and what the server pushes by itself: a change of state, a
-- connection that comes or goes, a stall.
use cherupi_v4l.Base.{
  Bool, List, [], arith, drop, false, if◌then◌else◌, length, not, refl, suc, true, ℕ, ◌&&◌, ◌++◌,
  ◌+◌, ◌∷◌, ◌≡◌, ◌≢◌, ◌⊎◌,
}
use cherupi_v4l.Command.Json.{Json}
use cherupi_v4l.Server.State.{
  Cause, Message, Outputs, Server, broadcast_state, capture_timeout, other_role, push_state_to,
  query, result_messages, state_message, state_report, trigger_result, trigger_results,
}
use cherupi_v4l.Types.{ClientRole, commander, observer}
use cherupi_v4l.Processor.Trigger.{has_pending_trigger}
use cherupi_v4l.Processor.{Processor, TriggerResult}

unfoldable pub is_push : Message → Bool
is_push (state_report state query recipient c o) = false
is_push (state_report state cause recipient c o) = true
is_push (capture_timeout camera_id) = true
is_push (trigger_result r) = true
is_push m = false

unfoldable pub is_for : ClientRole → ClientRole → Bool
is_for commander commander = true
is_for observer observer = true
is_for role other = false

-- The number of answers to a client among the messages.
unfoldable pub answers : ClientRole → List (ClientRole × Message) → ℕ
answers role [] = 0
answers role ((to, m) ∷ out) =
    if is_for role to && not (is_push m) then suc (answers role out) else answers role out

answers_app :
    (role : ClientRole) (a b : List (ClientRole × Message))
    → answers role (a ++ b) ≡ answers role a + answers role b
unfolding answers
answers_app role [] b = omega arith
answers_app role (e ∷ a) b = ground (arith, answers_app role a b)

result_messages-answers :
    (role : ClientRole) (rs : List TriggerResult) → answers role (result_messages rs) ≡ 0
unfolding answers is_push result_messages
result_messages-answers role [] = refl
result_messages-answers role (r ∷ rs) = ground (arith, result_messages-answers role rs)

module _ {J : Json} where
  open J use {Value, Double}

  -- One answer to the sender and none to the other client, or the trigger is armed.
  unfoldable pub IsAnswered : ClientRole → Server J → Outputs J → Type 0
  IsAnswered role s out =
      ((answers role out ≡ 1) × (answers (other_role role) out ≡ 0))
      ⊎ ((out ≡ []) × (has_pending_trigger s.processor ≡ true))

  push-answers :
      (role to : ClientRole) (cause : Cause) (s : Server J)
      → cause ≢ query
      → answers role (push_state_to J to cause s) ≡ 0
  unfolding push_state_to answers is_push state_message
  push-answers role to query s h = absurd (h refl)
  push-answers role to cause s h = ground arith

  broadcast-answers :
      (role : ClientRole) (cause : Cause) (s : Server J)
      → cause ≢ query
      → answers role (broadcast_state J cause s) ≡ 0
  unfolding broadcast_state
  broadcast-answers role cause s h = omega (
    arith,
    answers_app role (push_state_to J commander cause s) (push_state_to J observer cause s),
    push-answers role commander cause s h,
    push-answers role observer cause s h,
  )

  results-answers :
      (role : ClientRole) (before : Processor Double) (s : Server J)
      → answers role (trigger_results J before s) ≡ 0
  unfolding trigger_results answers
  results-answers role before s =
      ground (arith, result_messages-answers role (drop (length before.acks) s.processor.acks))

  pub reply-IsAnswered :
      (role : ClientRole) (m : Message) (s : Server J)
      → is_push m ≡ false
      → IsAnswered role s ((role, m) ∷ [])
  unfolding IsAnswered answers is_for other_role
  reply-IsAnswered commander m s h = ground arith
  reply-IsAnswered observer m s h = ground arith

  pub announced-IsAnswered :
      (role : ClientRole) (m : Message) (cause : Cause) (s : Server J)
      → is_push m ≡ false
      → cause ≢ query
      → IsAnswered role s ((role, m) ∷ broadcast_state J cause s)
  unfolding IsAnswered answers is_for other_role
  announced-IsAnswered commander m cause s h n =
      ground (arith, broadcast-answers commander cause s n, broadcast-answers observer cause s n)
  announced-IsAnswered observer m cause s h n =
      ground (arith, broadcast-answers commander cause s n, broadcast-answers observer cause s n)

  -- As the reply to `stop_cameras`: the results of the trigger stand before the broadcast.
  pub concluded-IsAnswered :
      (role : ClientRole) (m : Message) (cause : Cause) (before : Processor Double) (s : Server J)
      → is_push m ≡ false
      → cause ≢ query
      → IsAnswered role s ((role, m) ∷ (trigger_results J before s ++ broadcast_state J cause s))
  unfolding IsAnswered answers is_for other_role
  concluded-IsAnswered commander m cause before s h n = ground (
    arith,
    broadcast-answers commander cause s n,
    broadcast-answers observer cause s n,
    results-answers commander before s,
    results-answers observer before s,
    answers_app commander (trigger_results J before s) (broadcast_state J cause s),
    answers_app observer (trigger_results J before s) (broadcast_state J cause s),
  )
  concluded-IsAnswered observer m cause before s h n = ground (
    arith,
    broadcast-answers commander cause s n,
    broadcast-answers observer cause s n,
    results-answers commander before s,
    results-answers observer before s,
    answers_app commander (trigger_results J before s) (broadcast_state J cause s),
    answers_app observer (trigger_results J before s) (broadcast_state J cause s),
  )
