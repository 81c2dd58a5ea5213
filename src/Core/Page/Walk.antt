-- ===== src/Core/Page/Walk.antt =====
-- A client's walk over the pages of core/engine.go's paginate, from the first token to the last.
use cloud_tasks_emulator.Base.{
  ℕ, zero, suc, ◌+◌, ◌≤◌, ◌<◌, ◌≡◌, ◌≢◌, refl, ap, sym, ◌∙◌, true, false, Option, none, some, List,
  [], ◌∷◌, ◌++◌, length, take, drop, take-append-drop, drop-drop, inl, inr, ◌⊎◌, arith,
}
use cloud_tasks_emulator.Base.Int.{ℤ, pos, negsuc, max_int64}
use cloud_tasks_emulator.Base.Bytes.{Bytes, is_empty}
use cloud_tasks_emulator.Std.Decimal.{
  format_nat, format_nat-bytes, format_nat-ne_nil, atoi-format_nat,
}
use cloud_tasks_emulator.Std.Base64
use cloud_tasks_emulator.Core.Status.{ok, err, ◌>>=◌}
use cloud_tasks_emulator.Core.Page.{page_start, effective_size, page_token_of, page_at, paginate}

page_token_of-ne_nil : (n : ℕ) → page_token_of n ≢ []
unfolding page_token_of
page_token_of-ne_nil n e = format_nat-ne_nil n (Base64.encode-empty (format_nat n) e)

is_empty_ne : (s : Bytes) → s ≢ [] → is_empty s ≡ false
is_empty_ne [] h = absurd (h refl)
is_empty_ne (c ∷ s) h = refl

-- A token that the code gave out is read back as its position.
pub page_start-page_token_of : (n : ℕ) → n ≤ max_int64 → page_start (page_token_of n) ≡ ok n
unfolding page_start page_token_of ◌>>=◌
page_start-page_token_of n h =
    rw
      (
        is_empty_ne (page_token_of n) (page_token_of-ne_nil n),
        Base64.decode-encode (format_nat n) (format_nat-bytes n),
        atoi-format_nat n h,
      )
      refl

-- The pages from a token on, one after the other, until a token is empty. `none` means that the
-- fuel ran out or that a page was refused.
pub walk : ℕ → List Bytes → ℤ → Bytes → ℕ → Option (List Bytes)
walk zero names page_size token max = none
walk (suc f) names page_size token max = elim (paginate names page_size token max) [
  | err e ↦ none
  | ok (page, next) ↦
      let rest = walk f names page_size next max in
      elim (is_empty next) [
        | true ↦ some page
        | false ↦ elim rest [ none ↦ none | some more ↦ some (page ++ more) ]
      ]
]

effective_size_pos : (page_size : ℤ) (max : ℕ) → 0 < max → 0 < effective_size page_size max
unfolding effective_size
effective_size_pos (pos n) max h = ground arith
effective_size_pos (negsuc n) max h = h

page_of :
    (names : List Bytes) (page_size : ℤ) (max : ℕ) (token : Bytes) {start : ℕ}
    → page_start token ≡ ok start
    → paginate names page_size token max ≡ ok (page_at names start (effective_size page_size max))
unfolding paginate ◌>>=◌
page_of names page_size max token h = rw (h, ◌>>=◌) refl

-- One page, and where the walk goes on.
page_at_cases :
    (names : List Bytes) (start size : ℕ)
    → start ≤ length names
    → (page_at names start size ≡ (drop start names, []))
      ⊎ ((start + size < length names)
          × (page_at names start size
              ≡ (take size (drop start names), page_token_of (start + size))))
unfolding page_at
page_at_cases names start size h = ground arith

walk_step :
    (f : ℕ) (names : List Bytes) (page_size : ℤ) (token : Bytes) (max start : ℕ)
    → page_start token ≡ ok start
    → start ≤ length names
    → length names ≤ max_int64
    → let size = effective_size page_size max in
      (start + size < length names
        → walk f names page_size (page_token_of (start + size)) max
          ≡ some (drop (start + size) names))
      → walk (suc f) names page_size token max ≡ some (drop start names)
unfolding walk
walk_step f names page_size token max start h le fits next =
    let size = effective_size page_size max in
    let paged = page_of names page_size max token h in
    elim (page_at_cases names start size le) [
      | inl e ↦
          let last : paginate names page_size token max ≡ ok (drop start names, []) =
            paged ∙ ap ok e in
          rw (last, walk) refl
      | inr (more, e) ↦
          let full : paginate names page_size token max
              ≡ ok (take size (drop start names), page_token_of (start + size)) =
            paged ∙ ap ok e in
          let behind : drop (start + size) names ≡ drop size (drop start names) =
            sym (drop-drop size start names) in
          rw
            (
              full,
              walk,
              is_empty_ne _ (page_token_of-ne_nil (start + size)),
              next more,
              behind,
              take-append-drop size (drop start names),
            )
            refl
    ]

walk_from :
    (f : ℕ) (names : List Bytes) (page_size : ℤ) (token : Bytes) (max start : ℕ)
    → page_start token ≡ ok start
    → start ≤ length names
    → length names ≤ max_int64
    → 0 < max
    → length names < start + f
    → walk f names page_size token max ≡ some (drop start names)
walk_from zero names page_size token max start h le fits positive enough = absurd (omega arith)
walk_from (suc f) names page_size token max start h le fits positive enough =
    walk_step f names page_size token max start h le fits (λ more.
      walk_from f names page_size (page_token_of (start + effective_size page_size max)) max
        (start + effective_size page_size max) (page_start-page_token_of _ (omega arith))
        (omega arith) fits positive (omega (arith, effective_size_pos page_size max positive)))

-- The pages that a client reads by following the tokens, from the empty token until an empty one
-- comes back, are together the list itself: nothing is left out, repeated or moved. This holds for
-- every page size, of a list whose length an int64 holds, in at most one page more than it has
-- names.
pub walk_all :
    (names : List Bytes) (page_size : ℤ) (max : ℕ)
    → length names ≤ max_int64
    → 0 < max
    → walk (length names + 1) names page_size [] max ≡ some names
walk_all names page_size max fits positive =
    walk_from (length names + 1) names page_size [] max 0 (unfold page_start in refl) (omega arith)
      fits positive (omega arith)
