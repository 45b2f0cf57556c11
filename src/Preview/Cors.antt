-- ===== src/Preview/Cors.antt =====
-- `MergeCorsRules` of app/services/preview_policy.go, over `CORSRule` of app/contracts/storage.go.
use ponta_drive_api.Base.{
  ◌≡◌, refl, sym, append-nil, Bool, true, false, ◌&&◌, ◌||◌, List, [], ◌∷◌, ◌++◌, arith,
  if◌then◌else◌, Bool-cases, inl, inr,
}
use ponta_drive_api.Base.Int.{ℤ, pos}
use ponta_drive_api.Base.Text.{Text, text, same, same_refl}

pub record CorsRule : Type 0 where
  pub id : Text
  pub allowed_origins : List Text
  pub allowed_methods : List Text
  pub allowed_headers : List Text
  pub expose_headers : List Text
  pub max_age_seconds : ℤ

-- The loop over the allowed origins, left at the first hit.
unfoldable pub allows_origin : Text → List Text → Bool
allows_origin origin [] = false
allows_origin origin (o ∷ os) = same o origin || same o (text "*") || allows_origin origin os

-- The loop over the allowed methods.
unfoldable pub allows_get : List Text → Bool
allows_get [] = false
allows_get (m ∷ ms) = same m (text "GET") || allows_get ms

-- The rule lets the origin read the bucket.
unfoldable pub covers : Text → CorsRule → Bool
covers origin rule = allows_origin origin rule.allowed_origins && allows_get rule.allowed_methods

-- The loop over the rules; a hit is the early return.
unfoldable pub any_covers : Text → List CorsRule → Bool
unfolding covers
any_covers origin [] = false
any_covers origin (rule ∷ rules) = covers origin rule || any_covers origin rules

abbrev pub preview_rule : Text → CorsRule
preview_rule origin = record {
  id = text "ponta-drive-preview";
  allowed_origins = origin ∷ [];
  allowed_methods = text "GET" ∷ text "HEAD" ∷ [];
  allowed_headers = text "*" ∷ [];
  expose_headers = text "ETag" ∷ text "Content-Range" ∷ text "Content-Length" ∷ [];
  max_age_seconds = pos 3000;
}

unfoldable pub merge_cors_rules : List CorsRule → Text → List CorsRule × Bool
merge_cors_rules existing origin =
    if any_covers origin existing
    then (existing, false)
    else (existing ++ preview_rule origin ∷ [], true)

preview_rule-covers : (origin : Text) → covers origin (preview_rule origin) ≡ true
unfolding covers allows_origin allows_get same
preview_rule-covers origin = simp same_refl

any_covers-append :
    (origin : Text) (rule : CorsRule) (rules : List CorsRule)
    → covers origin rule ≡ true
    → any_covers origin (rules ++ rule ∷ []) ≡ true
unfolding any_covers
any_covers-append origin rule [] h = rw h
any_covers-append origin rule (r ∷ rules) h = ground (arith, any_covers-append origin rule rules h)

-- After the merge some rule lets the origin read the bucket.
pub merge_cors_rules-covers :
    (existing : List CorsRule) (origin : Text)
    → any_covers origin (merge_cors_rules existing origin).0 ≡ true
unfolding merge_cors_rules
merge_cors_rules-covers existing origin = elim (Bool-cases (any_covers origin existing)) [
  | inl there ↦ rw there there
  | inr missing ↦
      rw missing
        (any_covers-append origin (preview_rule origin) existing (preview_rule-covers origin))
]

merge_covered :
    (rules : List CorsRule) (origin : Text)
    → any_covers origin rules ≡ true
    → merge_cors_rules rules origin ≡ (rules, false)
unfolding merge_cors_rules
merge_covered rules origin h = rw h

merge_appends :
    (existing : List CorsRule) (origin : Text)
    → (merge_cors_rules existing origin).0
      ≡ existing ++ (if (merge_cors_rules existing origin).1 then preview_rule origin ∷ [] else [])
unfolding merge_cors_rules
merge_appends existing origin = elim (Bool-cases (any_covers origin existing)) [
  | inl there ↦ rw there (sym (append-nil existing))
  | inr missing ↦ rw missing refl
]

-- Merging is idempotent and only ever appends: after one merge some rule lets the origin GET, a
-- second merge changes nothing and says so, and the existing rules stay in front in their order,
-- followed by the preview rule exactly when the merge reports a change.
pub merge_cors_rules_idem :
    (existing : List CorsRule) (origin : Text)
    → let (merged, changed) = merge_cors_rules existing origin in
      (any_covers origin merged ≡ true)
      × (merge_cors_rules merged origin ≡ (merged, false))
      × (merged ≡ existing ++ (if changed then preview_rule origin ∷ [] else []))
merge_cors_rules_idem existing origin = (
  merge_cors_rules-covers existing origin,
  merge_covered (merge_cors_rules existing origin).0 origin
      (merge_cors_rules-covers existing origin),
  merge_appends existing origin,
)
