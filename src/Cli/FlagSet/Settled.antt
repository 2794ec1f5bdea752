-- ===== src/Cli/FlagSet/Settled.antt =====
-- The operations on flag sets need no fuel.
use aliyun_cli.Base.{
  Text, ◌++◌, ◌∷◌, [], List, Option, none, some, length, IsSettled, ok-IsSettled,
  and_then-IsSettled, arith,
}
use aliyun_cli.Cli.Flag.{FlagRef, get_formations}
use aliyun_cli.Cli.FlagSet.{
  Flags, deref, Index, index_put, FlagSet, new_flag_set, flag_by_name, add_formations, add,
  add_by_name, add_all, merge_with,
}

add_formations-IsSettled :
    (m : Index) (ss : List Text) (r : FlagRef) → IsSettled (add_formations m ss r)
unfolding add_formations
add_formations-IsSettled m [] r = ground arith
add_formations-IsSettled m (s ∷ ss) r =
    ground (arith, add_formations-IsSettled (index_put m s r) ss r)

pub add-IsSettled : (h : Flags) (fs : FlagSet) (r : FlagRef) → IsSettled (add h fs r)
unfolding add
add-IsSettled h fs r =
    ground (arith, add_formations-IsSettled fs.index (get_formations (deref h r)) r)

pub add_by_name-IsSettled :
    (h : Flags) (fs : FlagSet) (name : Text) → IsSettled (add_by_name h fs name)
unfolding add_by_name
add_by_name-IsSettled h fs name =
    ground (arith, add-IsSettled (h ++ (flag_by_name name ∷ [])) fs (length h))

add_all-IsSettled : (h : Flags) (fs : FlagSet) (rs : List FlagRef) → IsSettled (add_all h fs rs)
unfolding add_all
add_all-IsSettled h fs [] = ground arith
add_all-IsSettled h fs (r ∷ rs) =
    and_then-IsSettled _ _ (add-IsSettled h fs r) (λ fs'. add_all-IsSettled h fs' rs)

pub merge_with-IsSettled :
    (h : Flags) (fs : FlagSet) (from : Option FlagSet) → IsSettled (merge_with h fs from)
unfolding merge_with
merge_with-IsSettled h fs none = ground arith
merge_with-IsSettled h fs (some from) =
    and_then-IsSettled _ _ (add_all-IsSettled h new_flag_set fs.flags) (λ r. ok-IsSettled _)
