-- ===== src/Stream/Subscriptions.antt =====
-- The subscriptions of a session (streaming_cameras of src/stream_manager.cpp) through changes by the
-- client, while it stays subscribed to a camera.
use cherupi_v4l.Base.{
  All, Bool-cases, List, Option, [], ap, arith, inl, inr, insert_sorted, lookup, lookup-erase,
  lookup-insert_sorted, none, refl, some, subst, sym, ℕ, ◌==◌, ◌∙◌, ◌∷◌, ◌≡◌, ◌≢◌,
}
use cherupi_v4l.Command.Request.{StreamOptions}
use cherupi_v4l.Stream.Visit.{
  CameraStream, Change, change, change_all, store_at, subscribes, unsubscribes, unsubscribes_all,
  update_stream, with_options,
}

-- The camera stays subscribed.
abbrev pub KeepsCamera : {D : Type 0} → ℕ → Change D → Type 0
KeepsCamera c (subscribes d options) = Unit
KeepsCamera c (unsubscribes d) = d ≢ c
KeepsCamera c unsubscribes_all = ⊥

module _ {D T : Type 0} where
  -- The camera is subscribed, with the cursors of `like`.
  abbrev pub HasCursors : Option (CameraStream D T) → CameraStream D T → Type 0
  HasCursors o like =
      (cs : CameraStream D T) × (o ≡ some cs)
      × (cs.camera_cursor ≡ like.camera_cursor)
      × (cs.detected_cursor ≡ like.detected_cursor)

  insert_sorted-other :
      (c d : ℕ) (v : CameraStream D T) (m : List (ℕ × CameraStream D T))
      → d ≢ c
      → lookup c (insert_sorted d v m) ≡ lookup c m
  insert_sorted-other c d v m h = ground (arith, lookup-insert_sorted d c v m)

  insert_sorted_self :
      (c : ℕ) (v : CameraStream D T) (m : List (ℕ × CameraStream D T))
      → lookup c (insert_sorted c v m) ≡ some v
  insert_sorted_self c v m = ground (arith, lookup-insert_sorted c c v m)

  store_at-other :
      (c d : ℕ) (f : CameraStream D T → CameraStream D T) (o : Option (CameraStream D T))
      (m : List (ℕ × CameraStream D T))
      → d ≢ c
      → lookup c (store_at d f o m) ≡ lookup c m
  unfolding store_at
  store_at-other c d f none m h = refl
  store_at-other c d f (some ds) m h = insert_sorted-other c d (f ds) m h

  pub update_stream-other :
      (c d : ℕ) (f : CameraStream D T → CameraStream D T) (m : List (ℕ × CameraStream D T))
      → d ≢ c
      → lookup c (update_stream d f m) ≡ lookup c m
  unfolding update_stream
  update_stream-other c d f m h = store_at-other c d f (lookup d m) m h

  pub update_stream_self :
      (c : ℕ) (f : CameraStream D T → CameraStream D T) (m : List (ℕ × CameraStream D T))
      (cs : CameraStream D T)
      → lookup c m ≡ some cs
      → lookup c (update_stream c f m) ≡ some (f cs)
  unfolding update_stream store_at
  update_stream_self c f m cs e =
      ap (λ o. lookup c (store_at c f o m)) e ∙ insert_sorted_self c (f cs) m

  with_options-cursors :
      (epoch : T) (options : StreamOptions D) (o : Option (CameraStream D T))
      (like : CameraStream D T)
      → HasCursors o like
      → HasCursors (some (with_options epoch options o)) like
  unfolding with_options
  with_options-cursors epoch options none like (cs, e, p, q) = cc
  with_options-cursors epoch options (some ds) like (cs, e, p, q) =
      (record ds { options = options }, refl, ground arith, ground arith)

  change-HasCursors :
      (epoch : T) (ch : Change D) (c : ℕ) (m : List (ℕ × CameraStream D T))
      (like : CameraStream D T)
      → KeepsCamera c ch
      → HasCursors (lookup c m) like
      → HasCursors (lookup c (change epoch ch m)) like
  unfolding change
  change-HasCursors epoch (subscribes d options) c m like k h =
      let v : CameraStream D T = with_options epoch options (lookup d m) in
      elim (Bool-cases (d == c)) [
        | inl e ↦
            let same : d ≡ c = ground arith in
            let (x, f, p, q) =
              with_options-cursors epoch options (lookup d m) like
                (subst (λ k. HasCursors (lookup k m) like) (sym same) h) in
            (
              x,
              ap (λ k. lookup k (insert_sorted d v m)) (sym same) ∙ insert_sorted_self d v m ∙ f,
              p,
              q,
            )
        | inr e ↦
            subst (λ o. HasCursors o like) (sym (insert_sorted-other c d v m (ground arith))) h
      ]
  change-HasCursors epoch (unsubscribes d) c m like k (cs, e, p, q) =
      (cs, ground (arith, lookup-erase d c m), p, q)
  change-HasCursors epoch unsubscribes_all c m like k h = absurd k

  pub change_all-HasCursors :
      (epoch : T) (chs : List (Change D)) (c : ℕ) (m : List (ℕ × CameraStream D T))
      (like : CameraStream D T)
      → All (λ ch. KeepsCamera c ch) chs
      → HasCursors (lookup c m) like
      → HasCursors (lookup c (change_all epoch chs m)) like
  unfolding change_all
  change_all-HasCursors epoch [] c m like k h = h
  change_all-HasCursors epoch (ch ∷ chs) c m like k h =
      change_all-HasCursors epoch chs c (change epoch ch m) like k.1
        (change-HasCursors epoch ch c m like k.0 h)

  pub update_stream-HasCursors :
      (c d : ℕ) (f : CameraStream D T → CameraStream D T) (m : List (ℕ × CameraStream D T))
      (like : CameraStream D T)
      → ((cs : CameraStream D T) → (f cs).camera_cursor ≡ cs.camera_cursor)
      → ((cs : CameraStream D T) → (f cs).detected_cursor ≡ cs.detected_cursor)
      → HasCursors (lookup c m) like
      → HasCursors (lookup c (update_stream d f m)) like
  update_stream-HasCursors c d f m like k l (cs, e, p, q) = elim (Bool-cases (d == c)) [
    | inl e' ↦
        let same : d ≡ c = ground arith in
        (
          f cs,
          ap (λ j. lookup c (update_stream j f m)) same ∙ update_stream_self c f m cs e,
          k cs ∙ p,
          l cs ∙ q,
        )
    | inr e' ↦ (cs, update_stream-other c d f m (ground arith) ∙ e, p, q)
  ]
