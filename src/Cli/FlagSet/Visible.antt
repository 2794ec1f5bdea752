-- ===== src/Cli/FlagSet/Visible.antt =====
-- Which flags a lookup in a flag set can give, and so which flags a command sees.
use aliyun_cli.Base.{
  Text, Bool, true, false, ◌≡◌, refl, ◌∙◌, ap, ◌⊎◌, inl, inr, Option, none, some, Bool-cases, List,
  [], ◌∷◌, ◌++◌, arith, Res, ok, if◌then◌else◌, ◌||◌, and_then-eq-ok, subst, append-nil,
  append_assoc,
}
use aliyun_cli.Cli.Flag.{FlagRef, get_formations}
use aliyun_cli.Cli.FlagSet.{
  Flags, deref, index_get, FlagSet, new_flag_set, add, contains_ref, put, add_all, put_persistent,
  merge_with,
}
use aliyun_cli.Cli.FlagSet.Laws.{mem_text, index_get-add, index_get-put}

pub contains_ref-append :
    (xs ys : List FlagRef) (r : FlagRef)
    → contains_ref (xs ++ ys) r ≡ (contains_ref xs r || contains_ref ys r)
unfolding contains_ref
contains_ref-append [] ys r = refl
contains_ref-append (x ∷ xs) ys r = ground (arith, contains_ref-append xs ys r)

ok-injective : {A B C : Type 0} {a b : C} → ◌≡◌ {A = Res A B C} (ok a) (ok b) → a ≡ b
ok-injective e = cc

-- A lookup that succeeds gives a flag of the set that is written so.
abbrev pub IsSoundAt : Flags → FlagSet → Text → Option FlagRef → Type 0
IsSoundAt h fs s none = Unit {0}
IsSoundAt h fs s (some r) =
    (contains_ref fs.flags r ≡ true) × (mem_text (get_formations (deref h r)) s ≡ true)

abbrev pub IsSound : Flags → FlagSet → Type 0
IsSound h fs = (s : Text) → IsSoundAt h fs s (index_get fs.index s)

pub IsSound-lookup :
    (h : Flags) (fs : FlagSet) (s : Text) {q : FlagRef}
    → IsSound h fs
    → index_get fs.index s ≡ some q
    → IsSoundAt h fs s (some q)
IsSound-lookup h fs s sound found = rw found at (sound s)

pub new_flag_set-IsSound : (h : Flags) → IsSound h new_flag_set
unfolding index_get
new_flag_set-IsSound h s = tt

pub add-flags :
    (h : Flags) (fs : FlagSet) (r : FlagRef) {fs' : FlagSet}
    → add h fs r ≡ ok fs'
    → fs'.flags ≡ fs.flags ++ (r ∷ [])
unfolding add
add-flags h fs r e = ground arith

contains_ref_one : (r : FlagRef) → contains_ref (r ∷ []) r ≡ true
unfolding contains_ref
contains_ref_one r = ground arith

put_old :
    (h : Flags) (fs : FlagSet) (r : FlagRef) → contains_ref fs.flags r ≡ true → put h fs r ≡ fs
unfolding put
put_old h fs r old = ground arith

-- A set with more flags is sound where the smaller one is.
IsSoundAt-grow :
    (h : Flags) (fs fs' : FlagSet) (s : Text) (o : Option FlagRef) (r : FlagRef)
    → fs'.flags ≡ fs.flags ++ (r ∷ [])
    → IsSoundAt h fs s o
    → IsSoundAt h fs' s o
IsSoundAt-grow h fs fs' s none r e sound = tt
IsSoundAt-grow h fs fs' s (some q) r e sound = (rw (e, contains_ref-append) (ground arith), sound.1)

-- The flag that was added last is found in the set, under its formations.
IsSoundAt-last :
    (h : Flags) (fs fs' : FlagSet) (s : Text) (o : Option FlagRef) (r : FlagRef)
    → fs'.flags ≡ fs.flags ++ (r ∷ [])
    → IsSoundAt h fs s o
    → IsSoundAt h fs' s (if mem_text (get_formations (deref h r)) s then some r else o)
IsSoundAt-last h fs fs' s o r e sound =
    elim (Bool-cases (mem_text (get_formations (deref h r)) s)) [
      | inl own ↦ rw own (rw (e, contains_ref-append, contains_ref_one) (ground arith), own)
      | inr other ↦ rw other (IsSoundAt-grow h fs fs' s o r e sound)
    ]

pub add-IsSound :
    (h : Flags) (fs : FlagSet) (r : FlagRef) {fs' : FlagSet}
    → IsSound h fs
    → add h fs r ≡ ok fs'
    → IsSound h fs'
add-IsSound h fs r {fs'} sound e s =
    rw ((index_get-add h fs r s e).0)
      (IsSoundAt-last h fs fs' s (index_get fs.index s) r (add-flags h fs r e) (sound s))

put-flags :
    (h : Flags) (fs : FlagSet) (r : FlagRef)
    → (put h fs r).flags ≡ (if contains_ref fs.flags r then fs.flags else fs.flags ++ (r ∷ []))
unfolding put
put-flags h fs r = ground arith

pub put-IsSound : (h : Flags) (fs : FlagSet) (r : FlagRef) → IsSound h fs → IsSound h (put h fs r)
put-IsSound h fs r sound s = elim (Bool-cases (contains_ref fs.flags r)) [
  | inl old ↦ rw (put_old h fs r old) (sound s)
  | inr new ↦
      rw (index_get-put, new)
        (IsSoundAt-last h fs (put h fs r) s (index_get fs.index s) r (rw new at (put-flags h fs r))
          (sound s))
]

pub add_all-IsSound :
    (h : Flags) (rs : List FlagRef) (fs : FlagSet) {fs' : FlagSet}
    → IsSound h fs
    → add_all h fs rs ≡ ok fs'
    → IsSound h fs'
unfolding add_all
add_all-IsSound h [] fs sound e = subst (IsSound h) (ok-injective e) sound
add_all-IsSound h (r ∷ rs) fs sound e =
    let (g, added, rest) = and_then-eq-ok (add h fs r) (λ g. add_all h g rs) e in
    add_all-IsSound h rs g (add-IsSound h fs r sound added) rest

put_if-IsSound :
    (h : Flags) (fs : FlagSet) (r : FlagRef) (b : Bool)
    → IsSound h fs
    → IsSound h (if b then put h fs r else fs)
put_if-IsSound h fs r true sound = put-IsSound h fs r sound
put_if-IsSound h fs r false sound = sound

pub put_persistent-IsSound :
    (h : Flags) (rs : List FlagRef) (fs : FlagSet)
    → IsSound h fs
    → IsSound h (put_persistent h fs rs)
unfolding put_persistent
put_persistent-IsSound h [] fs sound = sound
put_persistent-IsSound h (r ∷ rs) fs sound =
    put_persistent-IsSound h rs _ (put_if-IsSound h fs r (deref h r).persistent sound)

add_all-flags :
    (h : Flags) (rs : List FlagRef) (fs : FlagSet) {fs' : FlagSet}
    → add_all h fs rs ≡ ok fs'
    → fs'.flags ≡ fs.flags ++ rs
unfolding add_all
add_all-flags h [] fs e = rw append-nil (ground arith)
add_all-flags h (r ∷ rs) fs e =
    let (g, added, rest) = and_then-eq-ok (add h fs r) (λ g. add_all h g rs) e in
    add_all-flags h rs g rest ∙ rw (add-flags h fs r added) (append_assoc fs.flags (r ∷ []) rs)

-- What the second loop of `mergeWith` brings in is persistent, and one of the other set's flags.
abbrev pub OwnOrPersistent : Flags → List FlagRef → List FlagRef → FlagRef → Type 0
OwnOrPersistent h own others q =
    (contains_ref own q ≡ true) ⊎ ((contains_ref others q ≡ true) × ((deref h q).persistent ≡ true))

put-OwnOrPersistent :
    (h : Flags) (fs : FlagSet) (r q : FlagRef) (rs : List FlagRef)
    → (deref h r).persistent ≡ true
    → contains_ref (put h fs r).flags q ≡ true
    → OwnOrPersistent h fs.flags (r ∷ rs) q
unfolding put contains_ref
put-OwnOrPersistent h fs r q rs e m = ground (arith, contains_ref-append fs.flags (r ∷ []) q)

put_if-flags :
    (h : Flags) (fs : FlagSet) (r q : FlagRef) (rs : List FlagRef) (b : Bool)
    → (deref h r).persistent ≡ b
    → contains_ref (if b then put h fs r else fs).flags q ≡ true
    → OwnOrPersistent h fs.flags (r ∷ rs) q
put_if-flags h fs r q rs false e m = inl m
put_if-flags h fs r q rs true e m = put-OwnOrPersistent h fs r q rs e m

contains_ref-later :
    (r q : FlagRef) (rs : List FlagRef) → contains_ref rs q ≡ true → contains_ref (r ∷ rs) q ≡ true
unfolding contains_ref
contains_ref-later r q rs h = ground arith

put_persistent-flags :
    (h : Flags) (rs : List FlagRef) (fs : FlagSet) (q : FlagRef)
    → contains_ref (put_persistent h fs rs).flags q ≡ true
    → OwnOrPersistent h fs.flags rs q
unfolding put_persistent
put_persistent-flags h [] fs q m = inl m
put_persistent-flags h (r ∷ rs) fs q m = elim (put_persistent-flags h rs _ q m) [
  | inl own ↦ put_if-flags h fs r q rs (deref h r).persistent refl own
  | inr kept ↦ inr (contains_ref-later r q rs kept.0, kept.1)
]

-- The flags of the set that `mergeWith` is given, if any.
abbrev pub given_flags : Option FlagSet → List FlagRef
given_flags none = []
given_flags (some from) = from.flags

-- A flag that a lookup in the merged set gives is written as the lookup says, and it is one of the
-- first set's flags or a persistent flag of the other set's, if there is another.
pub merge_with_visible :
    (h : Flags) (fs : FlagSet) (from : Option FlagSet) (s : Text) {fs' : FlagSet} {q : FlagRef}
    → IsSound h fs
    → merge_with h fs from ≡ ok fs'
    → index_get fs'.index s ≡ some q
    → OwnOrPersistent h fs.flags (given_flags from) q
      × (mem_text (get_formations (deref h q)) s ≡ true)
unfolding merge_with
merge_with_visible h fs none s sound e found =
    let same = ap (λ (g : FlagSet). index_get g.index s) (ok-injective e) in
    let (own, written) = IsSound-lookup h fs s sound (same ∙ found) in (inl own, written)
merge_with_visible h fs (some from) s {q} sound e found =
    let (r, added, rest) = and_then-eq-ok (add_all h new_flag_set fs.flags) _ e in
    let same = ap (λ (g : FlagSet). index_get g.index s) (ok-injective rest) in
    let start = add_all-IsSound h fs.flags new_flag_set (new_flag_set-IsSound h) added in
    let merged = put_persistent-IsSound h from.flags r start in
    let (member, written) = IsSound-lookup h _ s merged (same ∙ found) in
    let visible = put_persistent-flags h from.flags r q member in
    (rw (add_all-flags h fs.flags new_flag_set added) at visible, written)
