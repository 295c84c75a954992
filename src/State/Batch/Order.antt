-- ===== src/State/Batch/Order.antt =====
-- The query of `pending_batch`: its order and its limit (crates/metrune-core/src/state.rs).
use mathlib.Core.List.{Perm}
use mathlib.Core.List.Perm
use metrune.Prelude.{
  ℕ, zero, suc, ◌≡◌, refl, min, true, false, List, [], ◌∷◌, ◌++◌, arith, length, take, drop,
  take-append-drop, length-take, select, Bool-cases, inl, inr,
}
use metrune.Prelude.Order.{lex_text_swap, lex_text_trans, eq_of_lex_text}
use metrune.State.{LocalState}
use metrune.State.Batch.{Entry, is_pending, precedes, insert_entry, sort_entries, pending_rows}

precedes_total : (a b : Entry) → precedes a b ≡ false → precedes b a ≡ true
precedes_total a b h = ground (arith, lex_text_swap a.0 b.0)

precedes_trans : (a b c : Entry) → precedes a b ≡ true → precedes b c ≡ true → precedes a c ≡ true
precedes_trans a b c h k =
    ground (arith, lex_text_trans a.0 b.0 c.0, eq_of_lex_text a.0 b.0, eq_of_lex_text b.0 c.0)

-- Every row of the list comes after `e`.
abbrev pub Follows : Entry → List Entry → Type 0
Follows e [] = Unit
Follows e (x ∷ xs) = (precedes e x ≡ true) × Follows e xs

abbrev pub IsOrdered : List Entry → Type 0
IsOrdered [] = Unit
IsOrdered (e ∷ es) = Follows e es × IsOrdered es

Follows-trans : (a b : Entry) (es : List Entry) → precedes a b ≡ true → Follows b es → Follows a es
Follows-trans a b [] h f = tt
Follows-trans a b (x ∷ xs) h f = (precedes_trans a b x h f.0, Follows-trans a b xs h f.1)

Follows-insert :
    (a e : Entry) (es : List Entry)
    → precedes a e ≡ true
    → Follows a es
    → Follows a (insert_entry e es)
unfolding insert_entry
Follows-insert a e [] h f = (h, tt)
Follows-insert a e (x ∷ xs) h f = ground (arith, Follows-insert a e xs h f.1)

IsOrdered-insert : (e : Entry) (es : List Entry) → IsOrdered es → IsOrdered (insert_entry e es)
unfolding insert_entry
IsOrdered-insert e [] s = (tt, tt)
IsOrdered-insert e (x ∷ xs) s = elim (Bool-cases (precedes e x)) [
  | inl before ↦ rw before ((before, Follows-trans e x xs before s.0), s)
  | inr after ↦
      rw after (Follows-insert x e xs (precedes_total e x after) s.0, IsOrdered-insert e xs s.1)
]

IsOrdered-sort : (es : List Entry) → IsOrdered (sort_entries es)
unfolding sort_entries
IsOrdered-sort [] = tt
IsOrdered-sort (e ∷ es) = IsOrdered-insert e (sort_entries es) (IsOrdered-sort es)

insert-perm : (e : Entry) (es : List Entry) → Perm (insert_entry e es) (e ∷ es)
unfolding insert_entry
insert-perm e [] = Perm.refl (e ∷ [])
insert-perm e (x ∷ xs) = elim (Bool-cases (precedes e x)) [
  | inl before ↦ rw before (Perm.refl (e ∷ x ∷ xs))
  | inr after ↦ rw after (Perm.trans (Perm.cons x (insert-perm e xs)) (Perm.swap e x xs))
]

sort-perm : (es : List Entry) → Perm (sort_entries es) es
unfolding sort_entries
sort-perm [] = Perm.refl []
sort-perm (e ∷ es) = Perm.trans (insert-perm e (sort_entries es)) (Perm.cons e (sort-perm es))

length-insert : (e : Entry) (es : List Entry) → length (insert_entry e es) ≡ suc (length es)
unfolding insert_entry
length-insert e [] = refl
length-insert e (x ∷ xs) = ground (arith, length-insert e xs)

length-sort : (es : List Entry) → length (sort_entries es) ≡ length es
unfolding sort_entries
length-sort [] = refl
length-sort (e ∷ es) = omega (arith, length-insert e (sort_entries es), length-sort es)

-- Every row of the first list comes before every row of the second.
abbrev pub AllBefore : List Entry → List Entry → Type 0
AllBefore [] later = Unit
AllBefore (e ∷ es) later = Follows e later × AllBefore es later

Follows-drop : (e : Entry) (n : ℕ) (es : List Entry) → Follows e es → Follows e (drop n es)
Follows-drop e zero es f = f
Follows-drop e (suc n) [] f = tt
Follows-drop e (suc n) (x ∷ xs) f = Follows-drop e n xs f.1

Follows-take : (e : Entry) (n : ℕ) (es : List Entry) → Follows e es → Follows e (take n es)
Follows-take e zero es f = tt
Follows-take e (suc n) [] f = tt
Follows-take e (suc n) (x ∷ xs) f = (f.0, Follows-take e n xs f.1)

AllBefore-split :
    (n : ℕ) (es : List Entry)
    → IsOrdered es
    → IsOrdered (take n es) × AllBefore (take n es) (drop n es)
AllBefore-split zero es s = (tt, tt)
AllBefore-split (suc n) [] s = (tt, tt)
AllBefore-split (suc n) (x ∷ xs) s =
    let (ordered, before) = AllBefore-split n xs s.1 in
    ((Follows-take x n xs s.0, ordered), (Follows-drop x n xs s.0, before))

abbrev pub pending : LocalState → List Entry
pending db = select is_pending db.session_outbox

-- A batch takes as many pending rows as the limit allows, in the order of their age, and every row
-- that it leaves comes after all that it takes.
pub pending_rows-oldest :
    (limit : ℕ) (db : LocalState)
    → (left : List Entry) × Perm (pending_rows limit db ++ left) (pending db)
      × IsOrdered (pending_rows limit db)
      × AllBefore (pending_rows limit db) left
      × (length (pending_rows limit db) ≡ min limit (length (pending db)))
unfolding pending_rows
pending_rows-oldest limit db =
    let sorted = sort_entries (pending db) in
    let (ordered, before) = AllBefore-split limit sorted (IsOrdered-sort (pending db)) in
    (
      drop limit sorted,
      rw take-append-drop (sort-perm (pending db)),
      ordered,
      before,
      omega (arith, length-take limit sorted, length-sort (pending db)),
    )
