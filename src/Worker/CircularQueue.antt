-- ===== src/Worker/CircularQueue.antt =====
-- workflow-worker infrastructure/circular_queue.py: a ring buffer. Its `front` and `rear` of -1 are
-- `none`. The size is at least 1, where the source does not divide by zero.
pub mod Fifo
pub mod Runs
use video_flow.Prelude.{
  ℕ, zero, suc, ◌+◌, ◌%◌, Bool, true, false, Option, none, some, List, [], ◌∷◌, ◌==◌, if◌then◌else◌,
  get_elem?, set_elem, length-set_elem,
}

pub record CircularQueue (A : Type 0) : Type 0 where
  pub size : ℕ
  pub queue : List (Option A)
  pub front : Option ℕ
  pub rear : Option ℕ

-- `self.rear + 1`
abbrev pub after : Option ℕ → ℕ
after none = 0
after (some i) = i + 1

abbrev pub is_at : Option ℕ → ℕ → Bool
is_at none j = false
is_at (some i) j = i == j

module _ {A : Type 0} where
  abbrev pub nothing : ℕ → List (Option A)
  nothing zero = []
  nothing (suc n) = none ∷ nothing n

  -- __init__
  unfoldable pub new_queue : ℕ → CircularQueue A
  new_queue size = record { size = size; queue = nothing size; front = none; rear = none }

  -- is_full
  unfoldable pub is_full : CircularQueue A → Bool
  is_full q = is_at q.front (after q.rear % q.size)

  -- is_empty
  unfoldable pub is_empty : CircularQueue A → Bool
  is_empty q = elim q.front [ none ↦ true | some i ↦ false ]

  unfoldable pub enqueue_free : A → Option ℕ → CircularQueue A → CircularQueue A
  enqueue_free x none q = record q {
    front = some 0;
    rear = some 0;
    queue = set_elem q.queue 0 (some x);
  }
  enqueue_free x (some f) q = record q {
    rear = some (after q.rear % q.size);
    queue = set_elem q.queue (after q.rear % q.size) (some x);
  }

  -- enqueue
  unfoldable pub enqueue : A → CircularQueue A → Bool × CircularQueue A
  unfolding is_full enqueue_free
  enqueue x q = if is_full q then (false, q) else (true, enqueue_free x q.front q)

  -- `self.queue[i]`, where a slot never written holds None
  abbrev pub slot : CircularQueue A → ℕ → Option A
  slot q i = elim (get_elem? q.queue i) [ none ↦ none | some o ↦ o ]

  unfoldable pub dequeue_from : Option ℕ → CircularQueue A → Option A × CircularQueue A
  dequeue_from none q = (none, q)
  dequeue_from (some f) q =
      if is_at q.rear f
      then (slot q f, record q { front = none; rear = none })
      else (slot q f, record q { front = some ((f + 1) % q.size) })

  -- dequeue
  unfoldable pub dequeue : CircularQueue A → Option A × CircularQueue A
  unfolding dequeue_from
  dequeue q = dequeue_from q.front q
