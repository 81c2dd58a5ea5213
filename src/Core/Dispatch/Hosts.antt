-- ===== src/Core/Dispatch/Hosts.antt =====
-- The host of a URL through applyURIOverride in core/dispatch.go, which takes it apart into a name and
-- a port and puts it together again.
use cloud_tasks_emulator.Base.{
  ◌≡◌, refl, ap, ◌∙◌, Bool, true, false, not, none, [], ◌∷◌, ◌++◌, ◌==◌, arith, inl, inr,
  Option-cases, Bool-cases,
}
use cloud_tasks_emulator.Base.Bytes.{Bytes, is_empty}
use cloud_tasks_emulator.Std.Strings.{
  split_last, split_last-join, split_last-append, cut_suffix-append,
}
use cloud_tasks_emulator.Core.Types.{HttpOverride}
use cloud_tasks_emulator.Core.Dispatch.Override.{
  Url, all_digits, strip_brackets, split_host_port, join_host_port, override_url, overridden,
}

digits-no_colon : (s : Bytes) → all_digits s ≡ true → split_last b':' s ≡ none
unfolding all_digits split_last
digits-no_colon [] h = refl
digits-no_colon (c ∷ s) h = ground (arith, digits-no_colon s)

-- A host without a bracket in front.
abbrev pub no_bracket : Bytes → Bool
no_bracket [] = true
no_bracket (c ∷ s) = not (c == b'[')

abbrev pub no_last_colon : Bytes → Bool
no_last_colon [] = true
no_last_colon (c ∷ []) = not (c == b':')
no_last_colon (c ∷ d ∷ s) = no_last_colon (d ∷ s)

strip_brackets_none : (s : Bytes) → no_bracket s ≡ true → strip_brackets s ≡ s
unfolding strip_brackets
strip_brackets_none [] h = refl
strip_brackets_none (c ∷ s) h = ground arith

no_bracket-append : (s t : Bytes) → no_bracket (s ++ (b':' ∷ t)) ≡ true → no_bracket s ≡ true
no_bracket-append [] t h = refl
no_bracket-append (c ∷ s) t h = h

no_last_colon-append : (s : Bytes) → no_last_colon (s ++ (b':' ∷ [])) ≡ false
no_last_colon-append [] = refl
no_last_colon-append (c ∷ []) = refl
no_last_colon-append (c ∷ d ∷ s) = no_last_colon-append (d ∷ s)

join-split :
    (s : Bytes)
    → no_bracket s ≡ true
    → no_last_colon s ≡ true
    → join_host_port (split_host_port s).0 (split_host_port s).1 ≡ s
unfolding split_host_port join_host_port
join-split s h l = elim (Option-cases (split_last b':' s)) [
  | inl e ↦ rw (split_host_port, e) (strip_brackets_none s h)
  | inr ((before, behind), e) ↦ elim (Bool-cases (all_digits behind)) [
    | inr d ↦ rw (split_host_port, e, d) (strip_brackets_none s h)
    | inl d ↦
        rw (split_host_port, e, d) (joined before behind (split_last-join b':' s before behind e))
  ]
]
  where
    joined :
        (before behind : Bytes)
        → before ++ (b':' ∷ behind) ≡ s
        → join_host_port (strip_brackets before) behind ≡ s
    joined before [] whole =
        absurd (ground (arith, no_last_colon-append before, ap no_last_colon whole, l))
    joined before (c ∷ cs) whole =
        unfold join_host_port in
        rw
          (strip_brackets_none before (no_bracket-append before (c ∷ cs) (ap no_bracket whole ∙ h)))
          whole

-- An override that names neither a host nor a port leaves a URL's host and port as they are, when they
-- do not begin with a bracket and do not end with a colon.
pub override_url-host :
    {Rest : Type 0} (ov : HttpOverride) (u : Url Rest)
    → ov.host ≡ []
    → ov.port ≡ []
    → no_bracket u.host ≡ true
    → no_last_colon u.host ≡ true
    → (override_url ov u).host ≡ u.host
unfolding override_url overridden
override_url-host ov u no_host no_port h l = rw (no_host, no_port) (join-split u.host h l)

-- An override that names neither a host nor a port takes the brackets of an IPv6 address away and
-- leaves a text in which the port cannot be told from the address: [a]:p becomes a:p, for a port of
-- digits.
pub override_url-brackets :
    {Rest : Type 0} (ov : HttpOverride) (u : Url Rest) (address port : Bytes)
    → ov.host ≡ []
    → ov.port ≡ []
    → all_digits port ≡ true
    → is_empty port ≡ false
    → u.host ≡ (b'[' ∷ address ++ (b']' ∷ [])) ++ (b':' ∷ port)
    → (override_url ov u).host ≡ address ++ (b':' ∷ port)
unfolding override_url overridden split_host_port join_host_port strip_brackets split_last
override_url-brackets ov u address port no_host no_port digits some_port e =
    rw
      (
        no_host,
        no_port,
        e,
        split_last-append b':' (b'[' ∷ address ++ (b']' ∷ [])) port (digits-no_colon port digits),
        digits,
        cut_suffix-append b']' address,
        some_port,
      )
      refl
