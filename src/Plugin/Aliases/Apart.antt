-- ===== src/Plugin/Aliases/Apart.antt =====
-- cli/plugin/install_validation.go: the keys of a plugin that pass the loops of the validation are among no
-- reserved name and no key of another plugin.
use aliyun_cli.Base.{
  Text, text_eq, text_eq_iff, text_eq_refl, is_empty, trim_space, to_lower, Bool, true, false,
  Bool-cases, ◌≡◌, refl, sym, subst, ◌∙◌, ◌⊎◌, inl, inr, false≢true, Option, none, some, List, [],
  ◌∷◌, map, ok-inj, if◌then◌else◌, ok, err, arith,
}
use aliyun_cli.Plugin.Aliases.{
  normalize_command_name, is_among, is_reserved, ManifestError, alias_is_empty, alias_is_command,
  alias_is_duplicated, alias_is_built_in, LocalPlugin, Outcome, check_aliases, collect_routing_keys,
  first_common, conflict_or, check_others,
}

pub data Among : Text → List Text → Type 0 where
  among_first : (k : Text) (keys : List Text) → Among k (k ∷ keys)
  among_later : (k l : Text) (keys : List Text) → Among k keys → Among k (l ∷ keys)

pub is_among_sound : (k : Text) (keys : List Text) → is_among k keys ≡ true → Among k keys
unfolding is_among
is_among_sound k [] h = cc
is_among_sound k (l ∷ keys) h = elim (Bool-cases (text_eq k l)) [
  | inl same ↦ subst (λ x. Among k (x ∷ keys)) ((text_eq_iff k l).0 same) (among_first k keys)
  | inr other ↦ among_later k l keys (is_among_sound k keys (ground arith))
]

pub is_among_complete : {k : Text} {keys : List Text} → Among k keys → is_among k keys ≡ true
unfolding is_among
is_among_complete (among_first k keys) = rw (text_eq_refl k) refl
is_among_complete (among_later k l keys a) = ground (arith, is_among_complete a)

first_common-none :
    (keys others : List Text)
    → first_common keys others ≡ none
    → (k : Text) → Among k keys
    → ¬ Among k others
unfolding first_common
first_common-none [] others h k a b = elim a [ ]
first_common-none (l ∷ keys) others h k a b = elim (Bool-cases (is_among l others)) [
  | inl bad ↦ absurd (ground arith)
  | inr fine ↦
      first_or_later keys others l k fine (first_common-none keys others (ground arith)) a b
]
  where
    first_or_later :
        (keys others : List Text) (l k : Text)
        → is_among l others ≡ false
        → ((k : Text) → Among k keys → ¬ Among k others)
        → Among k (l ∷ keys)
        → ¬ Among k others
    first_or_later keys others l k fine rest (among_first _ _) b =
        false≢true (sym fine ∙ is_among_complete b)
    first_or_later keys others l k fine rest (among_later _ _ _ a) b = rest k a b

-- Four tests in a row that are all passed.
four_passed :
    (a b c d : Bool) (e f g i : ManifestError) (rest : Outcome (List Text)) (out : List Text)
    → (if a then err e else if b then err f else if c then err g else if d then err i else rest)
      ≡ ok out
    → (a ≡ false) × (d ≡ false) × (rest ≡ ok out)
four_passed true b c d e f g i rest out h = cc
four_passed false true c d e f g i rest out h = cc
four_passed false false true d e f g i rest out h = cc
four_passed false false false true e f g i rest out h = cc
four_passed false false false false e f g i rest out h = (refl, refl, h)

pub alias_passed :
    (reserved : List Text) (cmd_key x : Text) (aliases seen out : List Text)
    → check_aliases reserved cmd_key seen (x ∷ aliases) ≡ ok out
    → (is_reserved reserved (normalize_command_name x) ≡ false)
      × (check_aliases reserved cmd_key (normalize_command_name x ∷ seen) aliases ≡ ok out)
unfolding check_aliases
alias_passed reserved cmd_key x aliases seen out h =
    let key = normalize_command_name x in
    let p =
      four_passed (is_empty key) (text_eq key cmd_key) (is_among key seen)
        (is_reserved reserved key) alias_is_empty (alias_is_command key) (alias_is_duplicated key)
        (alias_is_built_in key) (check_aliases reserved cmd_key (key ∷ seen) aliases) out h in
    (p.1, p.2)

pub alias_named :
    (reserved : List Text) (cmd_key x : Text) (aliases seen out : List Text)
    → check_aliases reserved cmd_key seen (x ∷ aliases) ≡ ok out
    → is_empty (normalize_command_name x) ≡ false
unfolding check_aliases
alias_named reserved cmd_key x aliases seen out h =
    let key = normalize_command_name x in
    (four_passed (is_empty key) (text_eq key cmd_key) (is_among key seen) (is_reserved reserved key)
      alias_is_empty (alias_is_command key) (alias_is_duplicated key) (alias_is_built_in key)
      (check_aliases reserved cmd_key (key ∷ seen) aliases) out h).0

-- The names under which a plugin is called: its command and its aliases, normalized.
abbrev pub names_of : Text → List Text → List Text
names_of command aliases = normalize_command_name command ∷ map normalize_command_name aliases

moved_to_seen :
    (key k : Text) (seen later : List Text)
    → Among k seen ⊎ Among k (key ∷ later)
    → Among k (key ∷ seen) ⊎ Among k later
moved_to_seen key k seen later (inl a) = inl (among_later k key seen a)
moved_to_seen key k seen later (inr (among_first _ _)) = inl (among_first key seen)
moved_to_seen key k seen later (inr (among_later _ _ _ a)) = inr a

-- The keys that are seen behind the aliases: those before, and the normalized aliases.
pub check_aliases-keeps :
    (reserved : List Text) (cmd_key : Text) (aliases seen out : List Text)
    → check_aliases reserved cmd_key seen aliases ≡ ok out
    → (k : Text) → Among k seen ⊎ Among k (map normalize_command_name aliases)
    → Among k out
unfolding check_aliases
check_aliases-keeps reserved cmd_key [] seen out h k (inl a) = subst (Among k) (ok-inj h) a
check_aliases-keeps reserved cmd_key [] seen out h k (inr a) = elim a [ ]
check_aliases-keeps reserved cmd_key (x ∷ aliases) seen out h k a =
    check_aliases-keeps reserved cmd_key aliases (normalize_command_name x ∷ seen) out
      (alias_passed reserved cmd_key x aliases seen out h).1 k
      (moved_to_seen (normalize_command_name x) k seen (map normalize_command_name aliases) a)

conflict_or-ok :
    (o : Option Text) (name : Text) (rest : Outcome (Unit {0}))
    → conflict_or o name rest ≡ ok tt
    → (o ≡ none) × (rest ≡ ok tt)
conflict_or-ok none name rest h = (refl, h)
conflict_or-ok (some key) name rest h = cc

-- A plugin that is installed under another name.
pub data InstalledElse : Text → Text → LocalPlugin → List (Text × LocalPlugin) → Type 0 where
  else_first :
      (own name : Text) (lp : LocalPlugin) (plugins : List (Text × LocalPlugin))
      → text_eq (to_lower (trim_space name)) own ≡ false
      → InstalledElse own name lp ((name, lp) ∷ plugins)
  else_later :
      (own name : Text) (lp : LocalPlugin) (q : Text × LocalPlugin)
      (plugins : List (Text × LocalPlugin))
      → InstalledElse own name lp plugins
      → InstalledElse own name lp (q ∷ plugins)

rest_passed :
    (b : Bool) (o : Option Text) (name : Text) (rest : Outcome (Unit {0}))
    → (if b then rest else conflict_or o name rest) ≡ ok tt
    → rest ≡ ok tt
rest_passed true o name rest h = h
rest_passed false o name rest h = (conflict_or-ok o name rest h).1

pub check_others-apart :
    (own name : Text) (lp : LocalPlugin) (seen : List Text) {plugins : List (Text × LocalPlugin)}
    → InstalledElse own name lp plugins
    → check_others own seen plugins ≡ ok tt
    → (k : Text) → Among k seen
    → ¬ Among k (collect_routing_keys name lp)
unfolding check_others
check_others-apart own name lp seen (else_first _ _ _ plugins e) h =
    first_common-none seen (collect_routing_keys name lp)
      (conflict_or-ok (first_common seen (collect_routing_keys name lp)) name
        (check_others own seen plugins) (first_passed _ _ _ _ e h)).0
  where
    first_passed :
        (b : Bool) (o : Option Text) (name : Text) (rest : Outcome (Unit {0}))
        → b ≡ false
        → (if b then rest else conflict_or o name rest) ≡ ok tt
        → conflict_or o name rest ≡ ok tt
    first_passed true o name rest e h = cc
    first_passed false o name rest e h = h
check_others-apart own name lp seen (else_later _ _ _ (other, q) plugins i) h =
    check_others-apart own name lp seen i
      (rest_passed (text_eq (to_lower (trim_space other)) own) _ other _ h)

pub two_passed :
    (a b : Bool) (e f : ManifestError) (rest : Outcome (Unit {0}))
    → (if a then err e else if b then err f else rest) ≡ ok tt
    → (a ≡ false) × (b ≡ false) × (rest ≡ ok tt)
two_passed true b e f rest h = cc
two_passed false true e f rest h = cc
two_passed false false e f rest h = (refl, refl, h)

pub aliases_free :
    (reserved : List Text) (cmd_key : Text) (aliases seen out : List Text)
    → check_aliases reserved cmd_key seen aliases ≡ ok out
    → (k : Text) → Among k (map normalize_command_name aliases)
    → is_reserved reserved k ≡ false
aliases_free reserved cmd_key [] seen out h k a = elim a [ ]
aliases_free reserved cmd_key (x ∷ aliases) seen out h k (among_first _ _) =
    (alias_passed reserved cmd_key x aliases seen out h).0
aliases_free reserved cmd_key (x ∷ aliases) seen out h k (among_later _ _ _ a) =
    aliases_free reserved cmd_key aliases (normalize_command_name x ∷ seen) out
      (alias_passed reserved cmd_key x aliases seen out h).1 k a

pub command_or_alias :
    (reserved : List Text) (command : Text) (aliases : List Text) (k : Text)
    → is_reserved reserved (normalize_command_name command) ≡ false
    → ((k : Text) → Among k (map normalize_command_name aliases) → is_reserved reserved k ≡ false)
    → Among k (names_of command aliases)
    → is_reserved reserved k ≡ false
command_or_alias reserved command aliases k free rest (among_first _ _) = free
command_or_alias reserved command aliases k free rest (among_later _ _ _ a) = rest k a

pub seen_or_later :
    (key k : Text) (later : List Text) → Among k (key ∷ later) → Among k (key ∷ []) ⊎ Among k later
seen_or_later key k later (among_first _ _) = inl (among_first key [])
seen_or_later key k later (among_later _ _ _ a) = inr a
