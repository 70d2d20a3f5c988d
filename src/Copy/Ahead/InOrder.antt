-- ===== src/Copy/Ahead/InOrder.antt =====
-- The chunks come out of the queue of src/xrd/copy/engine.py as they were read.
use py_xroot_dclient.Base.{
  ℕ, Bytes, List, [], ◌∷◌, ◌++◌, ◌≡◌, ◌≤◌, length, refl, arith, Option, none, some, ap, sym, ◌∙◌,
  subst, ◌≢◌,
}
use py_xroot_dclient.Errors.{Error}
use py_xroot_dclient.Copy.Ahead.{
  Item, piece, failed, finished, offers, Outcome, running, returned, raised, Ahead, begin_ahead,
  offer, take_out, AheadStep, offering, taking, AheadReach, at_start, then_step,
}
use mathlib.Core.List.{append_assoc}

abbrev pieces : List Bytes → List Item
pieces [] = []
pieces (b ∷ bs) = piece b ∷ pieces bs

pieces-append : (xs ys : List Bytes) → pieces (xs ++ ys) ≡ pieces xs ++ pieces ys
pieces-append [] ys = refl
pieces-append (x ∷ xs) ys = ap (◌∷◌ (piece x)) (pieces-append xs ys)

module _ (bs : List Bytes) (fault : Option Error) where
  -- What is known of a loop that runs, and of one that has ended.
  abbrev Told : List Bytes → List Item → Outcome → Type 0
  Told taken left running = pieces taken ++ left ≡ offers bs fault
  Told taken left returned = (taken ≡ bs) × (fault ≡ none)
  Told taken left (raised e) = (taken ≡ bs) × (fault ≡ some e)

  abbrev Kept : Ahead → Type 0
  Kept a = Told a.taken (a.ready ++ a.waiting) a.outcome

ends_there :
    (taken bs : List Bytes) (fault : Option Error) (left : List Item)
    → pieces taken ++ (finished ∷ left) ≡ offers bs fault
    → (taken ≡ bs) × (fault ≡ none)
unfolding offers
ends_there [] [] none left e = (refl, refl)
ends_there [] [] (some x) left e = absurd (cc)
ends_there [] (b ∷ bs) fault left e = absurd (cc)
ends_there (t ∷ ts) [] none left e = absurd (cc)
ends_there (t ∷ ts) [] (some x) left e = absurd (cc)
ends_there (t ∷ ts) (b ∷ bs) fault left e =
    let rest = ends_there ts bs fault left (cc) in (cc, rest.1)

fails_there :
    (taken bs : List Bytes) (fault : Option Error) (x : Error) (left : List Item)
    → pieces taken ++ (failed x ∷ left) ≡ offers bs fault
    → (taken ≡ bs) × (fault ≡ some x)
unfolding offers
fails_there [] [] none x left e = absurd (cc)
fails_there [] [] (some y) x left e = (refl, cc)
fails_there [] (b ∷ bs) fault x left e = absurd (cc)
fails_there (t ∷ ts) [] none x left e = absurd (cc)
fails_there (t ∷ ts) [] (some y) x left e = absurd (cc)
fails_there (t ∷ ts) (b ∷ bs) fault x left e =
    let rest = fails_there ts bs fault x left (cc) in (cc, rest.1)

pieces-ne-offers :
    (taken bs : List Bytes) (fault : Option Error) → pieces taken ++ [] ≢ offers bs fault
unfolding offers
pieces-ne-offers [] [] none e = absurd (cc)
pieces-ne-offers [] [] (some x) e = absurd (cc)
pieces-ne-offers [] (b ∷ bs) fault e = absurd (cc)
pieces-ne-offers (t ∷ ts) [] none e = absurd (cc)
pieces-ne-offers (t ∷ ts) [] (some x) e = absurd (cc)
pieces-ne-offers (t ∷ ts) (b ∷ bs) fault e = pieces-ne-offers ts bs fault (cc)

module _ (bs : List Bytes) (fault : Option Error) (depth : ℕ) where
  Told-same :
      (taken : List Bytes) (l m : List Item) (o : Outcome)
      → l ≡ m
      → Told bs fault taken l o
      → Told bs fault taken m o
  Told-same taken l m o e h = subst (λ (k : List Item). Told bs fault taken k o) e h

  taken_out :
      (i : Item) (rest : List Item) (a : Ahead)
      → pieces a.taken ++ ((i ∷ rest) ++ a.waiting) ≡ offers bs fault
      → a.outcome ≡ running
      → Kept bs fault (take_out i rest a)
  unfolding take_out
  taken_out (piece b) rest a h runs =
      let moved : pieces (a.taken ++ (b ∷ [])) ++ (rest ++ a.waiting) ≡ offers bs fault =
        ap (λ (l : List Item). l ++ (rest ++ a.waiting)) (pieces-append a.taken (b ∷ []))
        ∙ append_assoc (pieces a.taken) (piece b ∷ []) (rest ++ a.waiting)
        ∙ h in
      subst (λ (o : Outcome). Told bs fault (a.taken ++ (b ∷ [])) (rest ++ a.waiting) o) (sym runs)
        moved
  taken_out (failed x) rest a h runs = fails_there a.taken bs fault x (rest ++ a.waiting) h
  taken_out finished rest a h runs = ends_there a.taken bs fault (rest ++ a.waiting) h

  Step-Kept : {a b : Ahead} → AheadStep depth a b → Kept bs fault a → Kept bs fault b
  unfolding offer
  Step-Kept {a} (offering i rest e room) h =
      Told-same a.taken (a.ready ++ a.waiting) ((a.ready ++ (i ∷ [])) ++ rest) a.outcome
        (ap (λ (w : List Item). a.ready ++ w) e ∙ sym (append_assoc a.ready (i ∷ []) rest)) h
  Step-Kept {a} (taking i rest e runs) h =
      taken_out i rest a
        (ap (λ (r : List Item). pieces a.taken ++ (r ++ a.waiting)) (sym e)
          ∙ subst (λ (o : Outcome). Told bs fault a.taken (a.ready ++ a.waiting) o) runs h)
        runs

  Reach-Kept : {a : Ahead} → AheadReach depth (begin_ahead bs fault) a → Kept bs fault a
  unfolding begin_ahead
  Reach-Kept at_start = refl
  Reach-Kept (then_step r s) = Step-Kept s (Reach-Kept r)

-- However the two threads take turns, and whatever the depth of the queue: when the loop over the
-- chunks ends it has had all the chunks that were read, in their order, and it ends by the
-- exception that the reading ended by, and plainly if there was none.
pub ahead_in_order :
    (bs : List Bytes) (fault : Option Error) (depth : ℕ) (a : Ahead)
    → AheadReach depth (begin_ahead bs fault) a
    → (a.outcome ≡ returned → (a.taken ≡ bs) × (fault ≡ none))
      × ((e : Error) → a.outcome ≡ raised e → (a.taken ≡ bs) × (fault ≡ some e))
ahead_in_order bs fault depth a r =
    let kept = Reach-Kept bs fault depth r in
    (
      λ e. subst (λ (o : Outcome). Told bs fault a.taken (a.ready ++ a.waiting) o) e kept,
      λ x e. subst (λ (o : Outcome). Told bs fault a.taken (a.ready ++ a.waiting) o) e kept,
    )

-- The loop over the chunks never waits for ever: while it runs, one of the two threads can go on,
-- if the queue holds an item at least.
pub ahead_goes_on :
    (bs : List Bytes) (fault : Option Error) (depth : ℕ) (a : Ahead)
    → 1 ≤ depth
    → AheadReach depth (begin_ahead bs fault) a
    → a.outcome ≡ running
    → (b : Ahead) × AheadStep depth a b
ahead_goes_on bs fault depth a some_room r runs = go a.ready a.waiting refl refl
  where
    go : (q w : List Item) → a.ready ≡ q → a.waiting ≡ w → (b : Ahead) × AheadStep depth a b
    go (i ∷ q) w e f = (take_out i q a, taking i q e runs)
    go [] (i ∷ w) e f = (offer i w a, offering i w f (omega (arith, ap length e)))
    go [] [] e f = absurd (
        pieces-ne-offers a.taken bs fault (
          ap (λ (l : List Item). pieces a.taken ++ l)
            (sym (ap (λ (q : List Item). q ++ a.waiting) e ∙ f))
          ∙ subst (λ (o : Outcome). Told bs fault a.taken (a.ready ++ a.waiting) o) runs
              (Reach-Kept bs fault depth r)))
