-- ===== src/Trace.antt =====
-- Runs of a queue that is seen through events: what each event does to the items held.
use lock_free_queues.Prelude.{◌≡◌, sym, ap, ◌∙◌, List, [], ◌∷◌, ◌++◌, append-nil, append_assoc}

-- The items that the events of a run carry, in order.
abbrev pub carried : {E B : Type 0} → (E → List B) → List E → List B
carried items [] = []
carried items (e ∷ es) = items e ++ carried items es

module _ {E B : Type 0} (Does : List B → E → List B → Type 0) where
  -- The events, one after the other, take the queue from the first list to the second.
  pub data Trace : List B → List E → List B → Type 0 where
    done : {xs : List B} → Trace xs [] xs
    step :
        {xs ys zs : List B} {e : E} {es : List E}
        → Does xs e ys
        → Trace ys es zs
        → Trace xs (e ∷ es) zs

  -- If each event takes `outs e` from the front and puts `ins e` at the end, then what went in on
  -- top of what was held is what came out and what is held still.
  pub Trace-Balanced :
      (ins outs : E → List B)
      → ((e : E) (xs ys : List B) → Does xs e ys → xs ++ ins e ≡ outs e ++ ys)
      → {xs ys : List B} {es : List E} → Trace xs es ys
      → xs ++ carried ins es ≡ carried outs es ++ ys
  Trace-Balanced ins outs balanced {xs} done = append-nil xs
  Trace-Balanced ins outs balanced {xs} {ys} (step {ys = next} {e = e} {es = es} d t) =
      sym (append_assoc xs (ins e) (carried ins es))
      ∙ ap (λ l. l ++ carried ins es) (balanced e xs next d)
      ∙ append_assoc (outs e) next (carried ins es)
      ∙ ap (λ l. outs e ++ l) (Trace-Balanced ins outs balanced t)
      ∙ sym (append_assoc (outs e) (carried outs es) ys)
