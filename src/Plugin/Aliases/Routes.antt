-- ===== src/Plugin/Aliases/Routes.antt =====
-- cli/plugin/install_validation.go: what the sanitizing and the validation of aliases promise.
use aliyun_cli.Base.{
  ℕ, ◌+◌, ◌&&◌, ◌++◌, leb, ap, txt, has_prefix, is_space, lower_char, trim_left, trim_right,
  trim_space_idem, to_lower_idem, Text, is_empty, trim_space, to_lower, Bool, true, false,
  Bool-cases, ◌≡◌, refl, sym, subst, ◌∙◌, inl, inr, List, [], ◌∷◌, map, if◌then◌else◌, ok,
  and_then-eq-ok, arith,
}
use aliyun_cli.Plugin.Aliases.{
  normalize_command_name, is_among, key_if_named, alias_keys, short_name, is_reserved,
  command_is_empty, command_is_built_in, LocalPlugin, check_aliases, collect_routing_keys,
  validate_command_and_aliases,
}
use aliyun_cli.Plugin.Aliases.Apart.{
  Among, InstalledElse, among_first, among_later, is_among_complete, alias_passed, alias_named,
  names_of, check_aliases-keeps, check_others-apart, two_passed, aliases_free, command_or_alias,
  seen_or_later,
}

-- Lower case and white space do not depend on each other.
space_of_lower : (c : ℕ) → is_space (lower_char c) ≡ is_space c
space_of_lower c = elim (Bool-cases (leb 65 c && leb c 90)) [
  | inl upper ↦
      let a : is_space (c + 32) ≡ false = ground arith in
      let b : is_space c ≡ false = ground arith in rw (upper, a, b) refl
  | inr other ↦ rw other refl
]

to_lower-is_empty : (s : Text) → is_empty (to_lower s) ≡ is_empty s
unfolding to_lower
to_lower-is_empty [] = refl
to_lower-is_empty (c ∷ s) = refl

to_lower_if :
    (b : Bool) (s t : Text) → to_lower (if b then s else t) ≡ (if b then to_lower s else to_lower t)
to_lower_if true s t = refl
to_lower_if false s t = refl

trim_right-to_lower : (s : Text) → trim_right (to_lower s) ≡ to_lower (trim_right s)
unfolding trim_right to_lower
trim_right-to_lower [] = refl
trim_right-to_lower (c ∷ s) =
    rw (trim_right-to_lower s, space_of_lower c, to_lower-is_empty (trim_right s))
      (sym (to_lower_if (is_space c && is_empty (trim_right s)) [] (c ∷ trim_right s)))

trim_left-to_lower : (s : Text) → trim_left (to_lower s) ≡ to_lower (trim_left s)
unfolding trim_left to_lower
trim_left-to_lower [] = refl
trim_left-to_lower (c ∷ s) =
    rw (trim_left-to_lower s, space_of_lower c)
      (sym (to_lower_if (is_space c) (trim_left s) (c ∷ s)))

trim_space-to_lower : (s : Text) → trim_space (to_lower s) ≡ to_lower (trim_space s)
unfolding trim_space
trim_space-to_lower s = ap trim_left (trim_right-to_lower s) ∙ trim_left-to_lower (trim_right s)

-- A name as it is compared: without the space around it and in lower case.
abbrev pub key_of : Text → Text
key_of s = to_lower (trim_space s)

key_of_idem : (s : Text) → key_of (key_of s) ≡ key_of s
key_of_idem s =
    ap to_lower (trim_space-to_lower (trim_space s) ∙ ap to_lower (trim_space_idem s))
    ∙ to_lower_idem (trim_space s)

-- The key is one that leads to an installed plugin: that of its command, of one of its aliases, of its
-- name, or of its name without the prefix `aliyun-cli-`.
pub data LeadsTo : Text → LocalPlugin → Text → Type 0 where
  by_command : (name : Text) (lp : LocalPlugin) → LeadsTo name lp (key_of lp.command)
  by_alias :
      (name : Text) (lp : LocalPlugin) (a : Text)
      → Among a lp.command_aliases
      → LeadsTo name lp (key_of a)
  by_plugin_name : (name : Text) (lp : LocalPlugin) → LeadsTo name lp (key_of name)
  by_short_name :
      (name : Text) (lp : LocalPlugin) (short : Text)
      → key_of name ≡ txt "aliyun-cli-" ++ short
      → LeadsTo name lp (key_of short)

Among-left : (k : Text) (xs ys : List Text) → Among k xs → Among k (xs ++ ys)
Among-left k [] ys a = elim a [ ]
Among-left k (x ∷ xs) ys (among_first _ _) = among_first k (xs ++ ys)
Among-left k (x ∷ xs) ys (among_later _ _ _ a) = among_later k x (xs ++ ys) (Among-left k xs ys a)

Among-right : (k : Text) (xs ys : List Text) → Among k ys → Among k (xs ++ ys)
Among-right k [] ys a = a
Among-right k (x ∷ xs) ys a = among_later k x (xs ++ ys) (Among-right k xs ys a)

key_if_named-Among : (k : Text) → is_empty k ≡ false → Among k (key_if_named k)
key_if_named-Among [] h = cc
key_if_named-Among (c ∷ s) h = among_first (c ∷ s) []

alias_keys-Among :
    (a : Text) {aliases : List Text}
    → Among a aliases
    → is_empty (key_of a) ≡ false
    → Among (key_of a) (alias_keys aliases)
unfolding alias_keys normalize_command_name
alias_keys-Among a (among_first _ aliases) h =
    Among-left (key_of a) (key_if_named (key_of a)) (alias_keys aliases)
      (key_if_named-Among (key_of a) h)
alias_keys-Among a (among_later _ b aliases i) h =
    Among-right (key_of a) (key_if_named (key_of b)) (alias_keys aliases) (alias_keys-Among a i h)

short_name-prefix : (short : Text) → short_name (txt "aliyun-cli-" ++ short) ≡ short
unfolding has_prefix
short_name-prefix short = refl

LeadsTo-Among :
    (name : Text) (lp : LocalPlugin) (k : Text)
    → LeadsTo name lp k
    → is_empty k ≡ false
    → Among k (collect_routing_keys name lp)
unfolding collect_routing_keys normalize_command_name
LeadsTo-Among name lp k (by_command _ _) h =
    Among-left k (key_if_named k) _ (key_if_named-Among k h)
LeadsTo-Among name lp k (by_alias _ _ a i) h =
    Among-right k (key_if_named (key_of lp.command)) _
      (Among-left k (alias_keys lp.command_aliases) _ (alias_keys-Among a i h))
LeadsTo-Among name lp k (by_plugin_name _ _) h =
    Among-right k (key_if_named (key_of lp.command)) _ (
      Among-right k (alias_keys lp.command_aliases) _
        (Among-left k (key_if_named k) _ (key_if_named-Among k h)))
LeadsTo-Among name lp k (by_short_name _ _ short e) h =
    let same : short_name (key_of name) ≡ short = ap short_name e ∙ short_name-prefix short in
    Among-right k (key_if_named (key_of lp.command)) _ (
      Among-right k (alias_keys lp.command_aliases) _ (
        Among-right k (key_if_named (key_of name)) _
          (subst (λ s. Among k (key_if_named (key_of s))) (sym same) (key_if_named-Among k h))))

not_reserved :
    (reserved : List Text) (k : Text)
    → key_of k ≡ k
    → is_empty k ≡ false
    → is_reserved reserved k ≡ false
    → ¬ Among k reserved
unfolding is_reserved normalize_command_name
not_reserved reserved k same named h a =
    let named' : is_empty (key_of k) ≡ false = ap is_empty same ∙ named in
    let listed : is_among (key_of k) reserved ≡ true =
      ap (λ s. is_among s reserved) same ∙ is_among_complete a in
    absurd (ground arith)

-- The keys of the names are keys, and not empty where the validation is passed.
names_named :
    (reserved : List Text) (cmd_key : Text) (aliases seen out : List Text)
    → check_aliases reserved cmd_key seen aliases ≡ ok out
    → (k : Text) → Among k (map normalize_command_name aliases)
    → (key_of k ≡ k) × (is_empty k ≡ false)
unfolding normalize_command_name
names_named reserved cmd_key [] seen out h k a = elim a [ ]
names_named reserved cmd_key (x ∷ aliases) seen out h k (among_first _ _) =
    (key_of_idem x, alias_named reserved cmd_key x aliases seen out h)
names_named reserved cmd_key (x ∷ aliases) seen out h k (among_later _ _ _ a) =
    names_named reserved cmd_key aliases (normalize_command_name x ∷ seen) out
      (alias_passed reserved cmd_key x aliases seen out h).1 k a

command_or_alias_named :
    (command : Text) (aliases : List Text) (k : Text)
    → is_empty (normalize_command_name command) ≡ false
    → ((k : Text)
        → Among k (map normalize_command_name aliases)
        → (key_of k ≡ k) × (is_empty k ≡ false))
    → Among k (names_of command aliases)
    → (key_of k ≡ k) × (is_empty k ≡ false)
unfolding normalize_command_name
command_or_alias_named command aliases k named rest (among_first _ _) = (key_of_idem command, named)
command_or_alias_named command aliases k named rest (among_later _ _ _ a) = rest k a

-- Each name of the plugin is a key.
Among-names :
    (command : Text) (aliases : List Text) (x : Text)
    → Among x (command ∷ aliases)
    → Among (key_of x) (names_of command aliases)
unfolding normalize_command_name
Among-names command aliases x (among_first _ _) = among_first (key_of x) (map key_of aliases)
Among-names command aliases x (among_later _ _ _ a) =
    among_later (key_of x) (key_of command) (map key_of aliases) (Among-map aliases x a)
  where
    Among-map :
        (aliases : List Text) (x : Text) → Among x aliases → Among (key_of x) (map key_of aliases)
    Among-map [] x a = elim a [ ]
    Among-map (y ∷ aliases) x (among_first _ _) = among_first (key_of x) (map key_of aliases)
    Among-map (y ∷ aliases) x (among_later _ _ _ a) =
        among_later (key_of x) (key_of y) (map key_of aliases) (Among-map aliases x a)

-- A plugin whose command and aliases pass the validation can be told apart. Each of them, without the space
-- around it and in lower case, is none of the reserved names, and it is not, in the same form, the
-- command, an alias, the name, or the name without `aliyun-cli-`, of a plugin that is installed
-- under another name.
pub validate_command_and_aliases_apart :
    (reserved : List Text) (plugins : List (Text × LocalPlugin)) (actual_name command : Text)
    (aliases : List Text)
    → validate_command_and_aliases reserved plugins actual_name command aliases ≡ ok tt
    → (x : Text) → Among x (command ∷ aliases)
    → (¬ Among (key_of x) reserved)
      × ((name : Text) (lp : LocalPlugin)
          → InstalledElse (key_of actual_name) name lp plugins
          → ¬ LeadsTo name lp (key_of x))
unfolding validate_command_and_aliases
validate_command_and_aliases_apart reserved plugins actual_name command aliases h x among =
    let k = key_of x in
    let a = Among-names command aliases x among in
    let key = normalize_command_name command in
    let p =
      two_passed (is_empty key) (is_reserved reserved key) command_is_empty
        (command_is_built_in key) _ h in
    let (seen, checked, apart) =
      and_then-eq-ok (check_aliases reserved key (key ∷ []) aliases) _ p.2 in
    let named =
      command_or_alias_named command aliases k p.0
        (names_named reserved key aliases (key ∷ []) seen checked) a in
    let free =
      command_or_alias reserved command aliases k p.1
        (aliases_free reserved key aliases (key ∷ []) seen checked) a in
    (
      not_reserved reserved k named.0 named.1 free,
      λ name lp i leads.
          check_others-apart _ name lp seen i apart k
            (check_aliases-keeps reserved key aliases (key ∷ []) seen checked k
              (seen_or_later key k (map normalize_command_name aliases) a))
            (LeadsTo-Among name lp k leads named.1),
    )
