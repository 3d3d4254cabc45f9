-- ===== src/Worker/FrameChannel/Delivery.antt =====
-- What a channel accepts and delivers, over any interleaving of the calls of `input`, of mark_close and
-- of the steps of `output`: between the reader's test and its get, anything may happen.
use video_flow.Prelude.{
  if_true, if_false, ℕ, ◌≡◌, refl, sym, ap, ◌∙◌, true, some, List, [], ◌∷◌, ◌++◌, Bool-cases,
  Option-cases, inl, inr, ◌⊎◌,
}
use mathlib.Core.List.{append-nil, append_assoc}
use video_flow.Worker.FrameChannel.{
  output_get, check_mark, Janus, IsFifo, FrameChannel, Input, Round, input, check_mark, output_get,
  mark_close, finished, put_reply, got_reply,
}

pub data Event : Type 0 where
  sent : ℕ → Event
  -- the reader's next step
  read : Event
  marked : Event

-- Where the reader stands: before its test, in its get, or behind its loop.
pub data Reader : Type 0 where
  testing : Reader
  getting : Reader
  stopped : Reader

-- What was accepted, and what was delivered.
abbrev pub Traffic : Type 0
Traffic = List ℕ × List ℕ

module _ (j : Janus) where
  abbrev pub with_input : ℕ → Input j → Traffic → Traffic
  with_input m Input.accepted t = (m ∷ t.0, t.1)
  with_input m Input.stopped t = t
  with_input m Input.full t = t

  abbrev pub with_round : Round j → Traffic → Traffic
  with_round (Round.yielded m) t = (t.0, m ∷ t.1)
  with_round _ t = t

  -- `continue` and the end of a yield lead back to the test.
  abbrev pub reader_after : Round j → Reader
  reader_after (Round.yielded m) = testing
  reader_after Round.waited = testing
  reader_after Round.going = getting
  reader_after Round.ended = stopped

  -- The reader's next step; behind its loop it takes none.
  unfoldable pub output : Reader → FrameChannel j → Round j × FrameChannel j
  unfolding check_mark output_get
  output testing c = check_mark j c
  output getting c = output_get j c
  output stopped c = (Round.ended, c)

  unfoldable pub run : List Event → Reader → FrameChannel j → Traffic
  unfolding input output mark_close
  run [] at c = ([], [])
  run (sent m ∷ es) at c = with_input m (input j c m).0 (run es at (input j c m).1)
  run (read ∷ es) at c =
      with_round (output at c).0 (run es (reader_after (output at c).0) (output at c).1)
  run (marked ∷ es) at c = run es at (mark_close j c)

  input_marked :
      (c : FrameChannel j) (m : ℕ) → c.mark_closed ≡ true → input j c m ≡ (Input.stopped, c)
  unfolding input
  input_marked c m h = elim (Bool-cases (j.is_closed c.queue)) [
    | inl e ↦ simp (e, input)
    | inr e ↦ simp (e, h, input)
  ]

  input_closed :
      (c : FrameChannel j) (m : ℕ) → j.is_closed c.queue ≡ true → input j c m ≡ (Input.stopped, c)
  unfolding input
  input_closed c m h = simp (h, input)

  input_cases :
      (c : FrameChannel j) (m : ℕ)
      → (input j c m ≡ (Input.stopped, c))
        ⊎ (input j c m ≡ (Input.full, c))
        ⊎ ((q : j.Queue) × (j.put_nowait c.queue m ≡ some q)
            × (input j c m ≡ (Input.accepted, record c { queue = q })))
  unfolding input put_reply
  input_cases c m = elim (Bool-cases (j.is_closed c.queue)) [
    | inl e ↦ inl (input_closed c m e)
    | inr e ↦ elim (Bool-cases c.mark_closed) [
      | inl d ↦ inl (input_marked c m d)
      | inr d ↦ elim (Option-cases (j.put_nowait c.queue m)) [
        | inl full ↦ inr (inl (simp (e, d, full, input, put_reply)))
        | inr (q, put) ↦ inr (inr (q, put, simp (e, d, put, input, put_reply)))
      ]
    ]
  ]

  check_cases :
      (c : FrameChannel j) → (check_mark j c ≡ finished j c) ⊎ (check_mark j c ≡ (Round.going, c))
  unfolding check_mark
  check_cases c = elim (Bool-cases c.mark_closed) [
    | inl e ↦ inl (if_true c.mark_closed _ _ e)
    | inr e ↦ inr (if_false c.mark_closed _ _ e)
  ]

  output_get_cases :
      (c : FrameChannel j)
      → (output_get j c ≡ finished j c)
        ⊎ (output_get j c ≡ (Round.waited, c))
        ⊎ ((m : ℕ) × (q : j.Queue) × (j.get c.queue ≡ some (m, q))
            × (output_get j c ≡ (Round.yielded m, record c { queue = q })))
  unfolding output_get got_reply
  output_get_cases c = elim (Bool-cases (j.is_closed c.queue)) [
    | inl e ↦ inl (simp (e, output_get))
    | inr e ↦ elim (Option-cases (j.get c.queue)) [
      | inl empty ↦ inr (inl (simp (e, empty, output_get, got_reply)))
      | inr ((m, q), got) ↦ inr (inr (m, q, got, simp (e, got, output_get, got_reply)))
    ]
  ]

  module _ (fifo : IsFifo j) where
    run_closed :
        (es : List Event) (at : Reader) (c : FrameChannel j)
        → j.is_closed c.queue ≡ true
        → run es stopped c ≡ ([], [])
    unfolding run mark_close output
    run_closed [] at c h = refl
    run_closed (sent m ∷ es) at c h = rw (input_closed c m h) (run_closed es at c h)
    run_closed (read ∷ es) at c h = run_closed es at c h
    run_closed (marked ∷ es) at c h = run_closed es at (mark_close j c) h

    -- The messages in the queue and then those accepted are those delivered and then some rest.
    abbrev IsDelivered : FrameChannel j → Traffic → Type 0
    IsDelivered c t = (rest : List ℕ) × (fifo.contents c.queue ++ t.0 ≡ t.1 ++ rest)

    closed-IsDelivered :
        (es : List Event) (c : FrameChannel j) → IsDelivered c (run es stopped (finished j c).1)
    closed-IsDelivered es c =
        rw (run_closed es stopped (finished j c).1 (fifo.closed c.queue))
          (fifo.contents c.queue, append-nil _)

    got-IsDelivered :
        (c : FrameChannel j) (m : ℕ) (q : j.Queue) (t : Traffic)
        → j.get c.queue ≡ some (m, q)
        → IsDelivered (record c { queue = q }) t
        → IsDelivered c (t.0, m ∷ t.1)
    got-IsDelivered c m q t got (rest, h) =
        (rest, ap (λ xs. xs ++ t.0) (fifo.got c.queue m q got) ∙ ap (λ xs. m ∷ xs) h)

    put-IsDelivered :
        (c : FrameChannel j) (m : ℕ) (q : j.Queue) (t : Traffic)
        → j.put_nowait c.queue m ≡ some q
        → IsDelivered (record c { queue = q }) t
        → IsDelivered c (m ∷ t.0, t.1)
    put-IsDelivered c m q t put (rest, h) = (
      rest,
      sym (append_assoc (fifo.contents c.queue) (m ∷ []) t.0)
          ∙ ap (λ xs. xs ++ t.0) (sym (fifo.put c.queue m q put))
          ∙ h,
    )

    -- What a channel delivers, over any interleaving of the calls, are the messages that stood in its
    -- queue and then those that it accepted, in this order, up to some place: none is lost between,
    -- doubled or overtaken.
    pub run-Fifo :
        (es : List Event) (at : Reader) (c : FrameChannel j)
        → (rest : List ℕ) × (fifo.contents c.queue ++ (run es at c).0 ≡ (run es at c).1 ++ rest)
    unfolding run mark_close output
    run-Fifo [] at c = (fifo.contents c.queue, append-nil _)
    run-Fifo (sent m ∷ es) at c = elim (input_cases c m) [
      | inl e ↦ rw e (run-Fifo es at c)
      | inr (inl e) ↦ rw e (run-Fifo es at c)
      | inr (inr (q, put, e)) ↦
          rw e (put-IsDelivered c m q _ put (run-Fifo es at (record c { queue = q })))
    ]
    run-Fifo (read ∷ es) testing c = elim (check_cases c) [
      | inl e ↦ rw e (closed-IsDelivered es c)
      | inr e ↦ rw e (run-Fifo es getting c)
    ]
    run-Fifo (read ∷ es) getting c = elim (output_get_cases c) [
      | inl e ↦ rw e (closed-IsDelivered es c)
      | inr (inl e) ↦ rw e (run-Fifo es testing c)
      | inr (inr (m, q, got, e)) ↦
          rw e (got-IsDelivered c m q _ got (run-Fifo es testing (record c { queue = q })))
    ]
    run-Fifo (read ∷ es) stopped c = run-Fifo es stopped c
    run-Fifo (marked ∷ es) at c = run-Fifo es at (mark_close j c)
