-- ===== src/Cli/FlagSet/Laws.antt =====
-- What a flag set finds after its operations (cli/flag_set.go).
use aliyun_cli.Base.{
  Text, text_eq, text_eq_iff, Bool, true, false, ◌≡◌, refl, ◌⊎◌, inl, inr, none, some, Option-cases,
  Bool-cases, List, [], ◌∷◌, ◌++◌, arith, ok, if◌then◌else◌, ◌||◌,
}
use aliyun_cli.Cli.Flag.{FlagRef, get_formations}
use aliyun_cli.Cli.FlagSet.{
  Flags, deref, Index, index_get, index_put, FlagSet, add_formations, add, contains_ref,
  put_formations, put,
}

-- Membership of texts, for the formations of a flag.
unfoldable pub mem_text : List Text → Text → Bool
mem_text [] s = false
mem_text (t ∷ ts) s = text_eq t s || mem_text ts s

pub index_get-index_put :
    (k s : Text) (r : FlagRef) (m : Index)
    → index_get (index_put m k r) s ≡ (if text_eq k s then some r else index_get m s)
unfolding index_get index_put
index_get-index_put k s r [] = refl
index_get-index_put k s r ((j, q) ∷ m) =
    ground (arith, text_eq_iff k s, text_eq_iff j k, text_eq_iff j s, index_get-index_put k s r m)

-- What adding formations means for a lookup, on success.
index_get-add_formations :
    (ss : List Text) (m : Index) (r : FlagRef) (s : Text) {m' : Index}
    → add_formations m ss r ≡ ok m'
    → index_get m' s ≡ (if mem_text ss s then some r else index_get m s)
unfolding add_formations mem_text
index_get-add_formations [] m r s e = ground arith
index_get-add_formations (t ∷ ss) m r s {m'} e = elim (Option-cases (index_get m t)) [
  | inl free ↦ ground (
    arith,
    index_get-add_formations ss (index_put m t r) r s {m' = m'},
    index_get-index_put t s r m,
  )
  | inr (q, taken) ↦ ground arith
]

-- Success means that no formation was taken.
add_formations_fresh :
    (ss : List Text) (m : Index) (r : FlagRef) (s : Text) {m' : Index}
    → add_formations m ss r ≡ ok m'
    → mem_text ss s ≡ true
    → index_get m s ≡ none
unfolding add_formations mem_text
add_formations_fresh [] m r s e h = cc
add_formations_fresh (t ∷ ss) m r s {m'} e h = elim (Option-cases (index_get m t)) [
  | inl free ↦ ground (
    arith,
    add_formations_fresh ss (index_put m t r) r s {m' = m'},
    index_get-index_put t s r m,
    text_eq_iff t s,
  )
  | inr (q, taken) ↦ ground arith
]

index_get-put_formations :
    (ss : List Text) (m : Index) (r : FlagRef) (s : Text)
    → index_get (put_formations m ss r) s ≡ (if mem_text ss s then some r else index_get m s)
unfolding put_formations mem_text
index_get-put_formations [] m r s = refl
index_get-put_formations (t ∷ ss) m r s =
    ground (arith, index_get-put_formations ss (index_put m t r) r s, index_get-index_put t s r m)

-- The parts of a successful `Add`.
add_parts :
    (h : Flags) (fs : FlagSet) (r : FlagRef) {fs' : FlagSet}
    → add h fs r ≡ ok fs'
    → (add_formations fs.index (get_formations (deref h r)) r ≡ ok fs'.index)
      × (fs'.flags ≡ fs.flags ++ (r ∷ []))
unfolding add
add_parts h fs r e = ground arith

-- After a successful `Add` every formation of the flag leads to the flag and was free before, and
-- every other lookup gives what it gave before.
pub index_get-add :
    (h : Flags) (fs : FlagSet) (r : FlagRef) (s : Text) {fs' : FlagSet}
    → add h fs r ≡ ok fs'
    → let own = mem_text (get_formations (deref h r)) s in
      (index_get fs'.index s ≡ (if own then some r else index_get fs.index s))
      × ((own ≡ false) ⊎ (index_get fs.index s ≡ none))
index_get-add h fs r s e =
    let (added, listed) = add_parts h fs r e in
    (
      index_get-add_formations _ fs.index r s added,
      elim (Bool-cases (mem_text (get_formations (deref h r)) s)) [
        | inl own ↦ inr (add_formations_fresh _ fs.index r s added own)
        | inr other ↦ inl other
      ],
    )

-- After `put` of a flag that the set lacks every formation of the flag leads to it, taken or not,
-- and every other lookup gives what it gave before; a flag that the set has changes nothing.
pub index_get-put :
    (h : Flags) (fs : FlagSet) (r : FlagRef) (s : Text)
    → index_get (put h fs r).index s ≡ (
        if contains_ref fs.flags r
        then index_get fs.index s
        else if mem_text (get_formations (deref h r)) s
        then some r
        else index_get fs.index s)
unfolding put
index_get-put h fs r s =
    ground (arith, index_get-put_formations (get_formations (deref h r)) fs.index r s)
