-- ===== src/Copy/Ahead.antt =====
-- `_Ahead` of src/xrd/copy/engine.py: a thread reads chunks into a bounded queue, while the loop of
-- the transfer takes them out. The thread is told to stop only once that loop has ended.
pub mod InOrder
use py_xroot_dclient.Base.{ℕ, Bytes, List, [], ◌∷◌, ◌++◌, ◌≡◌, ◌<◌, length, Option, none, some}
use py_xroot_dclient.Errors.{Error}

pub data Item : Type 0 where
  piece : Bytes → Item
  failed : Error → Item
  finished : Item

-- What `_read` offers, in this order: the chunks, the exception that ends them, if one does, and
-- the end.
unfoldable pub offers : List Bytes → Option Error → List Item
offers [] none = finished ∷ []
offers [] (some e) = failed e ∷ (finished ∷ [])
offers (b ∷ bs) fault = piece b ∷ offers bs fault

-- How the loop over the chunks stands.
pub data Outcome : Type 0 where
  running returned : Outcome
  raised : Error → Outcome

-- What is still to be offered, the queue, and the chunks that were taken out, the first one first.
pub record Ahead : Type 0 where
  pub waiting : List Item
  pub ready : List Item
  pub taken : List Bytes
  pub outcome : Outcome

unfoldable pub begin_ahead : List Bytes → Option Error → Ahead
begin_ahead bs fault = record {
  waiting = offers bs fault;
  ready = [];
  taken = [];
  outcome = running;
}

-- `_offer`
unfoldable pub offer : Item → List Item → Ahead → Ahead
offer i rest a = record a { waiting = rest; ready = a.ready ++ (i ∷ []) }

-- A turn of `_drain`.
unfoldable pub take_out : Item → List Item → Ahead → Ahead
take_out (piece b) rest a = record a { ready = rest; taken = a.taken ++ (b ∷ []) }
take_out (failed e) rest a = record a { ready = rest; outcome = raised e }
take_out finished rest a = record a { ready = rest; outcome = returned }

-- Either thread may be next, if the queue has room or an item for it.
pub data AheadStep (depth : ℕ) (a : Ahead) : Ahead → Type 0 where
  offering :
      (i : Item) (rest : List Item)
      → a.waiting ≡ i ∷ rest
      → length a.ready < depth
      → AheadStep depth a (offer i rest a)
  taking :
      (i : Item) (rest : List Item)
      → a.ready ≡ i ∷ rest
      → a.outcome ≡ running
      → AheadStep depth a (take_out i rest a)

pub data AheadReach (depth : ℕ) (first : Ahead) : Ahead → Type 0 where
  at_start : AheadReach depth first first
  then_step :
      {a b : Ahead} → AheadReach depth first a → AheadStep depth a b → AheadReach depth first b
