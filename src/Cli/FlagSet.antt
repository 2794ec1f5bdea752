-- ===== src/Cli/FlagSet.antt =====
-- `FlagSet` of cli/flag_set.go, over the flags that were made (`Flags`, the heap). The Go map
-- `index` is an association list in which each key stands once.
pub mod Laws
pub mod Visible
pub mod Unknown
pub mod Settled
use aliyun_cli.Base.{
  Text, text_eq, ◌==◌, Bool, false, Option, none, some, List, [], ◌∷◌, ◌++◌, length, get_or,
  is_some, if◌then◌else◌, ok, err, panic, and_then, ◌||◌, txt, take, ◌-◌,
}
use aliyun_cli.Cli.Error.{name_duplicated, formation_duplicated, Outcome}
use aliyun_cli.Cli.Flag.{Flag, FlagRef, empty_flag, get_formations, get_value, check_valid}

-- Every flag object, by its pointer.
abbrev pub Flags : Type 0
Flags = List Flag

-- `*p`. No pointer of the program dangles: the laws have the invariant.
abbrev pub deref : Flags → FlagRef → Flag
deref h r = get_or h r empty_flag

abbrev pub Index : Type 0
Index = List (Text × FlagRef)

-- `m[k]`
unfoldable pub index_get : Index → Text → Option FlagRef
index_get [] k = none
index_get ((j, r) ∷ m) k = if text_eq j k then some r else index_get m k

-- `m[k] = r`
unfoldable pub index_put : Index → Text → FlagRef → Index
index_put [] k r = (k, r) ∷ []
index_put ((j, q) ∷ m) k r = if text_eq j k then (j, r) ∷ m else (j, q) ∷ index_put m k r

pub record FlagSet : Type 0 where
  pub flags : List FlagRef
  pub index : Index

-- `NewFlagSet`
abbrev pub new_flag_set : FlagSet
new_flag_set = record { flags = []; index = [] }

-- The loop of `Add` over the formations.
unfoldable pub add_formations : Index → List Text → FlagRef → Outcome Index
add_formations m [] r = ok m
add_formations m (s ∷ ss) r = elim (index_get m s) [
  | some q ↦ panic (formation_duplicated s)
  | none ↦ add_formations (index_put m s r) ss r
]

-- `Add`
unfoldable pub add : Flags → FlagSet → FlagRef → Outcome FlagSet
add h fs r = elim (check_valid (deref h r)) [
  | some p ↦ panic p
  | none ↦
      and_then (add_formations fs.index (get_formations (deref h r)) r)
        (λ m. ok (record { flags = fs.flags ++ (r ∷ []); index = m }))
]

-- `strings.HasSuffix(s, suffix)`
unfoldable pub has_suffix : Text → Text → Bool
has_suffix [] suffix = text_eq [] suffix
has_suffix (c ∷ s) suffix = text_eq (c ∷ s) suffix || has_suffix s suffix

-- `&Flag{Name: name}`, with the alias of a name that ends in "-FILE"
unfoldable pub flag_by_name : Text → Flag
flag_by_name name = record empty_flag {
  name = name;
  aliases = if has_suffix name (txt "-FILE") then take (length name - 5) name ∷ [] else [];
}

-- `AddByName`: the new flag is allocated at the end of the heap.
unfoldable pub add_by_name : Flags → FlagSet → Text → Outcome (FlagRef × FlagSet × Flags)
add_by_name h fs name =
    if is_some (index_get fs.index (b'-' ∷ b'-' ∷ name))
    then err (name_duplicated name)
    else (let h' = h ++ (flag_by_name name ∷ []) in
        and_then (add h' fs (length h)) (λ fs'. ok (length h, fs', h')))

-- `Get`
abbrev pub get : FlagSet → Text → Option FlagRef
get fs name = index_get fs.index (b'-' ∷ b'-' ∷ name)

-- `GetByShorthand`, on the text of the rune
abbrev pub get_by_shorthand : FlagSet → Text → Option FlagRef
get_by_shorthand fs c = index_get fs.index (b'-' ∷ c)

-- `GetValue`
unfoldable pub get_flag_value : Flags → FlagSet → Text → Text × Bool
get_flag_value h fs name = elim (get fs name) [
  | none ↦ ([], false)
  | some r ↦ get_value (deref h r)
]

unfoldable pub contains_ref : List FlagRef → FlagRef → Bool
contains_ref [] r = false
contains_ref (q ∷ qs) r = q == r || contains_ref qs r

-- The loop of `put` over the formations.
unfoldable pub put_formations : Index → List Text → FlagRef → Index
put_formations m [] r = m
put_formations m (s ∷ ss) r = put_formations (index_put m s r) ss r

-- `put`: a formation that is taken passes to the new flag.
unfoldable pub put : Flags → FlagSet → FlagRef → FlagSet
put h fs r = if contains_ref fs.flags r then fs else record {
  flags = fs.flags ++ (r ∷ []);
  index = put_formations fs.index (get_formations (deref h r)) r;
}

-- The first loop of `mergeWith`.
unfoldable pub add_all : Flags → FlagSet → List FlagRef → Outcome FlagSet
add_all h r [] = ok r
add_all h r (f ∷ fs) = and_then (add h r f) (λ r'. add_all h r' fs)

-- The second loop of `mergeWith`, for the filter that its callers give: `f.Persistent`.
unfoldable pub put_persistent : Flags → FlagSet → List FlagRef → FlagSet
put_persistent h r [] = r
put_persistent h r (f ∷ fs) = put_persistent h (if (deref h f).persistent then put h r f else r) fs

-- `mergeWith`; without `from` the set itself is the result.
unfoldable pub merge_with : Flags → FlagSet → Option FlagSet → Outcome FlagSet
merge_with h fs none = ok fs
merge_with h fs (some from) =
    and_then (add_all h new_flag_set fs.flags) (λ r. ok (put_persistent h r from.flags))
