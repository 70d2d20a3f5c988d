-- ===== src/Copy/Parallel.antt =====
-- `_in_parallel` of src/xrd/copy/engine.py: the workers move their spans at the same time, each a
-- chunk at a time, in any order. The lock makes the report of a chunk one step.
pub mod Agreement
pub mod Whole
use py_xroot_dclient.Base.{ℕ, Bytes, List, [], ◌∷◌, ◌+◌, ◌++◌, ◌≡◌, ◌≤◌, length}
use py_xroot_dclient.Client.Server.{splice, slice}
use py_xroot_dclient.Copy.Plan.{spans}

-- A call of `move`: its span, and how much of it was moved.
pub record Worker : Type 0 where
  pub offset : ℕ
  pub length : ℕ
  pub moved : ℕ

-- The contents of the target, what was reported last, and the workers.
pub record Transfer : Type 0 where
  pub target : Bytes
  pub reported : ℕ
  pub workers : List Worker

unfoldable pub workers_of : List (ℕ × ℕ) → List Worker
workers_of [] = []
workers_of ((offset, len) ∷ spans) =
    record { offset = offset; length = len; moved = 0 } ∷ workers_of spans

-- The target is created, empty, and the spans are handed out.
unfoldable pub begin : ℕ → ℕ → Transfer
begin size workers = record { target = []; reported = 0; workers = workers_of (spans size workers) }

unfoldable pub take_turn : ℕ → Worker → Worker
take_turn n w = record w { moved = w.moved + n }

-- A turn of the loop of `move`: so many bytes are read where the worker is, written at the same
-- place of the target, and reported.
unfoldable pub move : Bytes → ℕ → Worker → List Worker → List Worker → Transfer → Transfer
move source n w front back t = record {
  target = splice (w.offset + w.moved) (slice (w.offset + w.moved) n source) t.target;
  reported = t.reported + n;
  workers = front ++ (take_turn n w ∷ back);
}

-- Any worker that is not done may be next. What it reads is not empty, no more than a chunk nor
-- than what is left of its span, and may be less.
pub data Step (source : Bytes) (chunk : ℕ) (t : Transfer) : Transfer → Type 0 where
  next :
      (front back : List Worker) (w : Worker) (n : ℕ)
      → t.workers ≡ front ++ (w ∷ back)
      → 1 ≤ n
      → n ≤ chunk
      → w.moved + n ≤ w.length
      → w.offset + w.moved + n ≤ length source
      → Step source chunk t (move source n w front back t)

pub data Reach (source : Bytes) (chunk : ℕ) (first : Transfer) : Transfer → Type 0 where
  start : Reach source chunk first first
  later :
      {t u : Transfer}
      → Reach source chunk first t
      → Step source chunk t u
      → Reach source chunk first u
