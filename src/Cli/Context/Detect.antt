-- ===== src/Cli/Context/Detect.antt =====
-- `detectFlag` on names that no declared flag has.
use aliyun_cli.Base.{
  Text, text_eq_refl, is_empty, Bool, true, false, ◌≡◌, refl, inl, inr, none, some, Option-cases,
  ◌∷◌, arith, if◌then◌else◌, ok, err, panic, sym, ◌∙◌, ap, get_or-append_last, timeout, set,
}
use aliyun_cli.Cli.Error.{name_duplicated, Outcome}
use aliyun_cli.Cli.Flag.{FlagRef, empty_flag, get_formations}
use aliyun_cli.Cli.FlagSet.{Flags, deref, FlagSet, get, add_by_name, flag_by_name}
use aliyun_cli.Cli.FlagSet.Laws.{mem_text, index_get-add}
use aliyun_cli.Cli.FlagSet.Unknown.{add_by_name_taken, add_by_name_fresh}
use aliyun_cli.Cli.Context.{
  Session, has_plugin_sub_command, take_unknown, add_unknown, detect_unknown, detect_flag,
}

formations_by_name :
    (name : Text)
    → is_empty name ≡ false
    → mem_text (get_formations (flag_by_name name)) (b'-' ∷ b'-' ∷ name) ≡ true
unfolding mem_text get_formations flag_by_name
formations_by_name name e = rw e (rw text_eq_refl (ground arith))

-- The name of a flag that `AddByName` made leads to the flag.
get-add_by_name :
    (h : Flags) (u : FlagSet) (name : Text) {r : FlagRef} {u' : FlagSet} {h' : Flags}
    → is_empty name ≡ false
    → add_by_name h u name ≡ ok (r, u', h')
    → get u' name ≡ some r
get-add_by_name h u name {r} {u'} {h'} filled e =
    let (free, at, grown, added) = add_by_name_fresh h u name e in
    let same = (index_get-add h' u r (b'-' ∷ b'-' ∷ name) added).0 in
    let made : deref h' r ≡ flag_by_name name =
      rw (at, grown) (get_or-append_last h (flag_by_name name) empty_flag) in
    same ∙ rw (made, formations_by_name name filled)

-- What a successful `add_unknown` leaves.
record Added (u : FlagSet) (name : Text) (s : Session) (r : FlagRef) (s' : Session) : Type 0 where
  set_after : FlagSet
  unknown : s'.ctx.unknown_flags ≡ some set_after
  leads : get set_after name ≡ some r
  keeps_flags : s'.ctx.flags ≡ s.ctx.flags
  keeps_cache : s'.ctx.has_plugin_sub_cmd_set ≡ s.ctx.has_plugin_sub_cmd_set
  keeps_answer : s'.ctx.has_plugin_sub_cmd ≡ s.ctx.has_plugin_sub_cmd

take_unknown-Added :
    (b : Bool) (u : FlagSet) (name : Text) (s : Session) (o : Outcome (FlagRef × FlagSet × Flags))
    {r : FlagRef} {s' : Session}
    → is_empty name ≡ false
    → add_by_name s.heap u name ≡ o
    → take_unknown b s o ≡ (ok r, s')
    → Added u name s r s'
unfolding take_unknown
take_unknown-Added b u name s (ok (q, u', h)) {r} filled made e = record {
  set_after = u';
  unknown = ground arith;
  leads = get-add_by_name s.heap u name {r = r} {u' = u'} {h' = h} filled (ground arith);
  keeps_flags = ground arith;
  keeps_cache = ground arith;
  keeps_answer = ground arith;
}
take_unknown-Added b u name s (err _) filled made e = cc
take_unknown-Added b u name s (panic _) filled made e = cc
take_unknown-Added b u name s timeout filled made e = cc

add_unknown-Added :
    (b : Bool) (u : FlagSet) (name : Text) (s : Session) {r : FlagRef} {s' : Session}
    → is_empty name ≡ false
    → add_unknown b u name s ≡ (ok r, s')
    → Added u name s r s'
unfolding add_unknown
add_unknown-Added b u name s filled e =
    take_unknown-Added b u name s (add_by_name s.heap u name) filled refl e

-- A name that is taken among the unknown flags is refused.
add_unknown_taken :
    (b : Bool) (u : FlagSet) (name : Text) (s : Session) {r : FlagRef}
    → get u name ≡ some r
    → add_unknown b u name s ≡ (err (name_duplicated name), s)
unfolding add_unknown take_unknown
add_unknown_taken b u name s taken = rw (add_by_name_taken s.heap u name taken)

-- The answer of `HasPluginSubCommand` is kept, and nothing else changes.
record Cached (s s' : Session) (answer : Bool) : Type 0 where
  is_set : s'.ctx.has_plugin_sub_cmd_set ≡ true
  kept : s'.ctx.has_plugin_sub_cmd ≡ answer
  same_flags : s'.ctx.flags ≡ s.ctx.flags
  same_unknown : s'.ctx.unknown_flags ≡ s.ctx.unknown_flags
  same_heap : s'.heap ≡ s.heap

has_plugin_sub_command-Cached :
    (s : Session) → Cached s (has_plugin_sub_command s).1 (has_plugin_sub_command s).0
unfolding has_plugin_sub_command
has_plugin_sub_command-Cached s = ground arith

has_plugin_sub_command_again :
    (s : Session) (b : Bool)
    → s.ctx.has_plugin_sub_cmd_set ≡ true
    → s.ctx.has_plugin_sub_cmd ≡ b
    → has_plugin_sub_command s ≡ (b, s)
unfolding has_plugin_sub_command
has_plugin_sub_command_again s b e kept = rw (e, kept)

-- The state in which a name was taken up as an unknown flag, and the answer about plugins kept.
record TakenUp (name : Text) (r : FlagRef) (plugin : Bool) (s : Session) : Type 0 where
  undeclared : get s.ctx.flags name ≡ none
  unknown_set : FlagSet
  at_set : s.ctx.unknown_flags ≡ some unknown_set
  at_flag : get unknown_set name ≡ some r
  answered : s.ctx.has_plugin_sub_cmd_set ≡ true
  answer_is : s.ctx.has_plugin_sub_cmd ≡ plugin

detect_flag-TakenUp :
    (name : Text) (r : FlagRef) (plugin : Bool) (s : Session)
    → TakenUp name r plugin s
    → detect_flag name s ≡ (if plugin then ok r else err (name_duplicated name), s)
unfolding detect_flag detect_unknown
detect_flag-TakenUp name r plugin s t = ground (
  arith,
  has_plugin_sub_command_again s plugin t.answered t.answer_is,
  add_unknown_taken false t.unknown_set name s t.at_flag,
)

Added-TakenUp :
    (u : FlagSet) (name : Text) (s1 : Session) (r : FlagRef) (s' : Session) (plugin : Bool)
    → get s1.ctx.flags name ≡ none
    → s1.ctx.has_plugin_sub_cmd_set ≡ true
    → s1.ctx.has_plugin_sub_cmd ≡ plugin
    → Added u name s1 r s'
    → TakenUp name r plugin s'
Added-TakenUp u name s1 r s' plugin free set kept a = record {
  undeclared = ap (λ (f : FlagSet). get f name) a.keeps_flags ∙ free;
  unknown_set = a.set_after;
  at_set = a.unknown;
  at_flag = a.leads;
  answered = a.keeps_cache ∙ set;
  answer_is = a.keeps_answer ∙ kept;
}

known-TakenUp :
    (s1 : Session) (name : Text) (u : FlagSet) (q : FlagRef) {r : FlagRef} {s' : Session}
    → get s1.ctx.flags name ≡ none
    → s1.ctx.unknown_flags ≡ some u
    → s1.ctx.has_plugin_sub_cmd_set ≡ true
    → s1.ctx.has_plugin_sub_cmd ≡ true
    → get u name ≡ some q
    → ◌≡◌ {A = Outcome FlagRef × Session} (ok q, s1) (ok r, s')
    → TakenUp name r true s'
known-TakenUp s1 name u q free unknown set kept known e = record {
  undeclared = ground arith;
  unknown_set = u;
  at_set = ground arith;
  at_flag = ground arith;
  answered = ground arith;
  answer_is = ground arith;
}

-- The first occurrence takes the name up.
detect_first :
    (s1 : Session) (name : Text) (u : FlagSet) (plugin : Bool) {r : FlagRef} {s' : Session}
    → get s1.ctx.flags name ≡ none
    → s1.ctx.unknown_flags ≡ some u
    → is_empty name ≡ false
    → s1.ctx.has_plugin_sub_cmd_set ≡ true
    → s1.ctx.has_plugin_sub_cmd ≡ plugin
    → (if plugin
        then elim (get u name) [ some q ↦ (ok q, s1) | none ↦ add_unknown true u name s1 ]
        else add_unknown false u name s1)
      ≡ (ok r, s')
    → TakenUp name r plugin s'
detect_first s1 name u false free unknown filled set kept e =
    Added-TakenUp u name s1 _ _ false free set kept (add_unknown-Added false u name s1 filled e)
detect_first s1 name u true free unknown filled set kept e = elim (Option-cases (get u name)) [
  | inl fresh ↦
      Added-TakenUp u name s1 _ _ true free set kept
        (add_unknown-Added true u name s1 filled (rw fresh at e))
  | inr (q, known) ↦ known-TakenUp s1 name u q free unknown set kept known (rw known at e)
]

detect_flag_undeclared :
    (s : Session) (name : Text) (u : FlagSet)
    → get s.ctx.flags name ≡ none
    → s.ctx.unknown_flags ≡ some u
    → detect_flag name s ≡ detect_unknown u name s
unfolding detect_flag
detect_flag_undeclared s name u free unknown = ground arith

-- An undeclared flag that is met twice: in a plugin command the second occurrence is the same
-- flag, in any other command it is refused as a duplicate, and nothing more changes.
pub detect_flag_twice :
    (s : Session) (name : Text) (u : FlagSet) {r : FlagRef} {s' : Session}
    → get s.ctx.flags name ≡ none
    → s.ctx.unknown_flags ≡ some u
    → is_empty name ≡ false
    → detect_flag name s ≡ (ok r, s')
    → detect_flag name s'
      ≡ (if (has_plugin_sub_command s).0 then ok r else err (name_duplicated name), s')
unfolding detect_unknown
detect_flag_twice s name u {r} {s'} free unknown filled e =
    let c = has_plugin_sub_command-Cached s in
    detect_flag-TakenUp name r (has_plugin_sub_command s).0 s' (
      detect_first (has_plugin_sub_command s).1 name u (has_plugin_sub_command s).0
        (ap (λ (f : FlagSet). get f name) c.same_flags ∙ free) (c.same_unknown ∙ unknown) filled
        c.is_set c.kept (sym (detect_flag_undeclared s name u free unknown) ∙ e))
