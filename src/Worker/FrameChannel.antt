-- ===== src/Worker/FrameChannel.antt =====
-- workflow-worker infrastructure/media_stream/frame_channel.py: the channel from the stream to one
-- module. The queue of the package janus is a parameter, with what the code relies on. A message is its
-- number.
pub mod Delivery
use video_flow.Prelude.{
  ℕ, ◌≡◌, Bool, true, false, Option, none, some, List, [], ◌∷◌, ◌++◌, if◌then◌else◌,
}

pub record Janus : Type 1 where
  pub Queue : Type 0
  -- `none` where the queue is full
  pub put_nowait : Queue → ℕ → Option Queue
  -- `none` where it stayed empty until the timeout
  pub get : Queue → Option (ℕ × Queue)
  pub close : Queue → Queue
  pub is_closed : Queue → Bool

-- What janus documents: first in, first out, and a closed queue is closed.
pub record IsFifo (j : Janus) : Type 0 where
  pub contents : j.Queue → List ℕ
  pub put :
      (q : j.Queue) (m : ℕ) (p : j.Queue)
      → j.put_nowait q m ≡ some p
      → contents p ≡ contents q ++ (m ∷ [])
  pub got :
      (q : j.Queue) (m : ℕ) (p : j.Queue) → j.get q ≡ some (m, p) → contents q ≡ m ∷ contents p
  pub closed : (q : j.Queue) → j.is_closed (j.close q) ≡ true

module _ (j : Janus) where
  pub record FrameChannel : Type 0 where
    pub queue : j.Queue
    pub mark_closed : Bool

  -- How `input` ends: True, False or AsyncQueueFull.
  pub data Input : Type 0 where
    stopped : Input
    accepted : Input
    full : Input

  -- How a step of `output` ends; `going` where the loop goes on to the blocking get.
  pub data Round : Type 0 where
    yielded : ℕ → Round
    waited : Round
    going : Round
    ended : Round

  put_reply : FrameChannel → Option j.Queue → Input × FrameChannel
  put_reply c none = (full, c)
  put_reply c (some q) = (accepted, record c { queue = q })

  -- input
  unfoldable pub input : FrameChannel → ℕ → Input × FrameChannel
  unfolding put_reply
  input c msg =
      if j.is_closed c.queue
      then (stopped, c)
      else if c.mark_closed
      then (stopped, c)
      else put_reply c (j.put_nowait c.queue msg)

  got_reply : FrameChannel → Option (ℕ × j.Queue) → Round × FrameChannel
  got_reply c none = (waited, c)
  got_reply c (some (msg, q)) = (yielded msg, record c { queue = q })

  abbrev pub finished : FrameChannel → Round × FrameChannel
  finished c = (ended, record c { queue = j.close c.queue })

  -- The test of `mark_closed` at the head of the loop of `output`.
  unfoldable pub check_mark : FrameChannel → Round × FrameChannel
  check_mark c = if c.mark_closed then finished c else (going, c)

  -- The get that follows, which may block while the channel is marked closed: a queue that is closed
  -- raises, which ends the loop.
  unfoldable pub output_get : FrameChannel → Round × FrameChannel
  unfolding got_reply
  output_get c = if j.is_closed c.queue then finished c else got_reply c (j.get c.queue)

  -- mark_close
  unfoldable pub mark_close : FrameChannel → FrameChannel
  mark_close c = record c { mark_closed = true }
