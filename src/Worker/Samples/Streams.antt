-- ===== src/Worker/Samples/Streams.antt =====
-- Inputs and tests of the ring buffer, the channels and the stream, and their theorems at them.
use video_flow.Prelude.{
  ℕ, ◌≡◌, refl, true, Bool, ltb, length, ◌++◌, Bool-cases, inl, inr, if◌then◌else◌, false, none,
  some, List, [], ◌∷◌, arith,
}
use video_flow.Worker.Tracking.{ms}
use video_flow.Worker.CircularQueue.{new_queue}
use video_flow.Worker.CircularQueue.Runs.{
  Call, put, get, accepted, took, run, list_run, run-list_run,
}
use video_flow.Worker.FrameChannel.{Janus, IsFifo, FrameChannel}
use video_flow.Worker.FrameChannel.Delivery
use video_flow.Worker.FrameChannel.Delivery.{Event, sent, read, marked, testing, run-Fifo}
use video_flow.Worker.MediaStream.{should_skip, process_step, choose_decode_fps}

abbrev calls : List (Call ℕ)
calls = put 7 ∷ put 8 ∷ put 9 ∷ get ∷ put 10 ∷ get ∷ get ∷ get ∷ []

run_test :
    list_run 2 calls []
    ≡ accepted true
      ∷ accepted true
      ∷ accepted false
      ∷ took (some 7)
      ∷ accepted true
      ∷ took (some 8)
      ∷ took (some 10)
      ∷ took none
      ∷ []
run_test = refl

run-list_run_example : run calls (new_queue 2) ≡ list_run 2 calls []
run-list_run_example = run-list_run 2 calls (omega arith)

abbrev list_queue : Janus
list_queue = record {
  Queue = Bool × List ℕ;
  put_nowait = λ q m. if ltb (length q.1) 100 then some (q.0, q.1 ++ (m ∷ [])) else none;
  get = λ q. elim q.1 [ [] ↦ none | m ∷ ms ↦ some (m, (q.0, ms)) ];
  close = λ q. (true, q.1);
  is_closed = λ q. q.0;
}

list_queue-put :
    (q : Bool × List ℕ) (m : ℕ) (p : Bool × List ℕ)
    → list_queue.put_nowait q m ≡ some p
    → p.1 ≡ q.1 ++ (m ∷ [])
list_queue-put q m p e = elim (Bool-cases (ltb (length q.1) 100)) [
  | inl room ↦ cc (rw room at e)
  | inr none_left ↦ absurd (cc (rw none_left at e))
]

list_queue-got :
    (q : Bool × List ℕ) (m : ℕ) (p : Bool × List ℕ) → list_queue.get q ≡ some (m, p) → q.1 ≡ m ∷ p.1
list_queue-got (b, []) m p e = absurd (cc e)
list_queue-got (b, n ∷ ns) m p e = cc e

list_queue-IsFifo : IsFifo list_queue
list_queue-IsFifo = record {
  contents = λ q. q.1;
  put = list_queue-put;
  got = list_queue-got;
  closed = λ q. refl;
}

abbrev channel : FrameChannel list_queue
channel = record { queue = (false, []); mark_closed = false }

abbrev events : List Event
events = sent 1 ∷ sent 2 ∷ read ∷ read ∷ sent 3 ∷ read ∷ marked ∷ read ∷ read ∷ sent 4 ∷ []

-- The reader is in its get when the channel is marked closed: it still delivers one message.
delivered_test : Delivery.run list_queue events testing channel ≡ (1 ∷ 2 ∷ 3 ∷ [], 1 ∷ 2 ∷ [])
unfolding Delivery.run
delivered_test = refl

run-Fifo_example :
    (rest : List ℕ) × (list_queue-IsFifo.contents channel.queue
        ++ (Delivery.run list_queue events testing channel).0
      ≡ (Delivery.run list_queue events testing channel).1 ++ rest)
run-Fifo_example = run-Fifo list_queue list_queue-IsFifo events testing channel

-- A channel of 7.5 frames per second, of a video of 25: the rate to decode at is 7, and the step is 0.
fraction_test : choose_decode_fps (7500 ∷ []) (some 25000) ≡ some 7
unfolding choose_decode_fps
fraction_test = refl

fraction_step_test : should_skip true 0 (process_step 7 7500) ≡ none
unfolding process_step should_skip
fraction_step_test = refl
