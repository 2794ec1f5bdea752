-- ===== src/Config/Profile/Bearer.antt =====
-- A validated bearer token can be put into an HTTP header: no line can be smuggled in by it.
use aliyun_cli.Base.{
  IsFree, Text, txt, text_eq, text_eq_iff, is_empty, trim_space, true, false, ◌==◌, Bool-cases, ◌≡◌,
  refl, sym, ap, subst, ◌∙◌, ◌≢◌, ◌⊎◌, inl, inr, Option, none, some, [], ◌∷◌,
}
use aliyun_cli.Config.Profile.{
  mode_bearer_token, Profile, ProfileError, region_is_empty, invalid_region, control_characters,
  space_or_colon, not_printable, with_key, is_region, require, first_of, contains_any,
  all_printable, normalize_header_key, sanitize_value, sanitized, normalize_bearer_token_fields,
  validate_bearer, validate,
}

-- No line break, NUL, space, tab or colon, and printable ASCII throughout
abbrev pub IsHeaderKey : Text → Type 0
IsHeaderKey key =
    (contains_any (13 ∷ 10 ∷ 0 ∷ []) key ≡ false)
    × (contains_any (32 ∷ 9 ∷ b':' ∷ []) key ≡ false)
    × (all_printable key ≡ true)

-- No CR, LF or NUL
abbrev pub IsHeaderValue : Text → Type 0
IsHeaderValue s = IsFree 13 s × IsFree 10 s × IsFree 0 s

sanitize_value-IsHeaderValue : (s : Text) → IsHeaderValue (sanitize_value s)
unfolding sanitize_value
sanitize_value-IsHeaderValue [] = (tt, tt, tt)
sanitize_value-IsHeaderValue (c ∷ s) =
    let (cr, lf, nul) = sanitize_value-IsHeaderValue s in
    elim (Bool-cases (c == 13)) [
      | inl e ↦ rw e (cr, lf, nul)
      | inr e0 ↦ elim (Bool-cases (c == 10)) [
        | inl e ↦ rw (e0, e) (cr, lf, nul)
        | inr e1 ↦ elim (Bool-cases (c == 0)) [
          | inl e ↦ rw (e0, e1, e) (cr, lf, nul)
          | inr e2 ↦ rw (e0, e1, e2) ((e0, cr), (e1, lf), (e2, nul))
        ]
      ]
    ]

sanitize_value-IsHeaderValue_id : (s : Text) → IsHeaderValue s → sanitize_value s ≡ s
unfolding sanitize_value
sanitize_value-IsHeaderValue_id [] h = refl
sanitize_value-IsHeaderValue_id (c ∷ s) h =
    rw (h.0.0, h.1.0, h.2.0)
      (ap (λ t. c ∷ t) (sanitize_value-IsHeaderValue_id s (h.0.1, h.1.1, h.2.1)))

-- The key that is left, and what is true of it.
normalize_header_key-cases :
    (key : Text)
    → ((e : ProfileError) × (normalize_header_key key ≡ inl e))
      ⊎ (normalize_header_key key ≡ inr [])
      ⊎ ((normalize_header_key key ≡ inr (trim_space key)) × IsHeaderKey (trim_space key))
unfolding normalize_header_key
normalize_header_key-cases key = elim (Bool-cases (is_empty (trim_space key))) [
  | inl blank ↦ inr (inl (rw blank))
  | inr e0 ↦ elim (Bool-cases (contains_any (13 ∷ 10 ∷ 0 ∷ []) (trim_space key))) [
    | inl e ↦ inl (control_characters, rw (e0, e) refl)
    | inr e1 ↦ elim (Bool-cases (contains_any (32 ∷ 9 ∷ b':' ∷ []) (trim_space key))) [
      | inl e ↦ inl (space_or_colon, rw (e0, e1, e) refl)
      | inr e2 ↦ elim (Bool-cases (all_printable (trim_space key))) [
        | inl e3 ↦ inr (inr (rw (e0, e1, e2, e3), (e1, e2, e3)))
        | inr e ↦ inl (not_printable, rw (e0, e1, e2, e) refl)
      ]
    ]
  ]
]

-- The key of the profile that is left.
abbrev KeyLeft : Profile → Text → Type 0
KeyLeft p key =
    ((key ≡ []) ⊎ IsHeaderKey key) × (normalize_bearer_token_fields p ≡ (none, sanitized p key))

normalize-cases :
    (p : Profile)
    → ((e : ProfileError) × (normalize_bearer_token_fields p ≡ (some e, p)))
      ⊎ ((key : Text) × KeyLeft p key)
unfolding normalize_bearer_token_fields
normalize-cases p = elim (Bool-cases (is_empty p.bearer_token_header_key)) [
  | inl blank ↦
      inr (p.bearer_token_header_key, (inl (empty p.bearer_token_header_key blank), rw blank))
  | inr given ↦ elim (normalize_header_key-cases p.bearer_token_header_key) [
    | inl (e, bad) ↦ inl (e, rw given (ap (with_key p) bad))
    | inr (inl none_left) ↦ inr ([], (inl refl, rw given (ap (with_key p) none_left)))
    | inr (inr (kept, safe)) ↦
        inr (trim_space p.bearer_token_header_key, (inr safe, rw given (ap (with_key p) kept)))
  ]
]
  where
    empty : (s : Text) → is_empty s ≡ true → s ≡ []
    empty [] h = refl
    empty (c ∷ s) h = cc

failed :
    {q r : Profile} {e : ProfileError}
    → ◌≢◌ {A = Option ProfileError × Profile} (some e, r) (none, q)
failed h = cc

-- What `Validate` does in this mode where it finds no error.
validate-bearer :
    (p q : Profile)
    → p.mode ≡ mode_bearer_token
    → validate p ≡ (none, q)
    → validate_bearer p ≡ (none, q)
unfolding validate
validate-bearer p q mode h = elim (Bool-cases (is_empty p.region_id)) [
  | inl e ↦
      let stop : validate p ≡ (some region_is_empty, p) = rw e in absurd (failed (sym stop ∙ h))
  | inr e0 ↦ elim (Bool-cases (is_region p.region_id)) [
    | inr e ↦
        let stop : validate p ≡ (some (invalid_region p.region_id), p) = rw (e0, e) in
        absurd (failed (sym stop ∙ h))
    | inl e1 ↦
        let e2 : is_empty p.mode ≡ false = ap is_empty mode in
        let e3 : text_eq p.mode mode_bearer_token ≡ true =
          (text_eq_iff p.mode mode_bearer_token).1 mode in
        let step : validate p ≡ validate_bearer p = rw (e0, e1, e2, e3) in sym step ∙ h
  ]
]

value_filled :
    (s : Text) (e : Option ProfileError) (q r : Profile)
    → ◌≡◌ {A = Option ProfileError × Profile}
        (first_of e (require s (txt "bearer_token")), r)
        (none, q)
    → (e ≡ none) × (is_empty s ≡ false) × (r ≡ q)
value_filled [] none q r h = absurd (failed h)
value_filled (c ∷ s) none q r h = (refl, refl, ap (λ t. t.1) h)
value_filled s (some e) q r h = absurd (failed h)

none≢some : {e : ProfileError} → none ≢ some e
none≢some h = cc

abbrev KeySafe : Profile → Type 0
KeySafe r = (r.bearer_token_header_key ≡ []) ⊎ IsHeaderKey r.bearer_token_header_key

-- Where `Validate` accepts a profile of the mode `BearerToken`, the profile that it leaves can be
-- sent as a header: its key is empty or printable ASCII without line break, NUL, space, tab and
-- colon, and its token is not empty and has no CR, LF or NUL.
pub validate_header :
    (p q : Profile)
    → p.mode ≡ mode_bearer_token
    → validate p ≡ (none, q)
    → ((q.bearer_token_header_key ≡ []) ⊎ IsHeaderKey q.bearer_token_header_key)
      × IsHeaderValue q.bearer_token_value
      × (is_empty q.bearer_token_value ≡ false)
unfolding validate_bearer
validate_header p q mode h =
    let n = normalize_bearer_token_fields p in
    let (fine, given, same) =
      value_filled n.1.bearer_token_value n.0 q n.1 (validate-bearer p q mode h) in
    elim (normalize-cases p) [
      | inl (e, bad) ↦ absurd (none≢some (sym fine ∙ ap (λ t. t.0) bad))
      | inr (key, left) ↦
          let e : sanitized p key ≡ q = sym (ap (λ t. t.1) left.1) ∙ same in
          let key_safe : (q.bearer_token_header_key ≡ []) ⊎ IsHeaderKey q.bearer_token_header_key =
            subst KeySafe e left.0 in
          let value_safe : IsHeaderValue q.bearer_token_value =
            subst (λ r. IsHeaderValue r.bearer_token_value) e
              (sanitize_value-IsHeaderValue p.bearer_token_value) in
          (key_safe, value_safe, subst (λ r. is_empty r.bearer_token_value ≡ false) same given)
    ]
