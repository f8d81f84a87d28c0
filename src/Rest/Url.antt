-- ===== src/Rest/Url.antt =====
-- `normalizeUrl` of src/CanMonitor/common/rest-server.c.
use mathlib.Core.Path.{subst}
use can_monitor.Base.{
  [], ◌∷◌, Bytes, Bool, true, false, ◌&&◌, ◌==◌, if◌then◌else◌, Bool-cases, ◌≡◌, inl, inr, refl,
  arith,
}

-- A byte is copied, and after a copied '/' the slashes that follow are skipped: the flag says
-- that the byte before was a '/'.
unfoldable pub copy_url : Bool → Bytes → Bytes
copy_url after_slash [] = []
copy_url after_slash (c ∷ cs) =
    let rest = copy_url (c == b'/') cs in if after_slash && c == b'/' then rest else c ∷ rest

unfoldable pub normalize_url : Bytes → Bytes
unfolding copy_url
normalize_url url = copy_url false url

-- No slash stands behind a slash; `after_slash` says that one stands before the text.
abbrev pub NoDoubleSlash : Bool → Bytes → Type 0
NoDoubleSlash after_slash [] = Unit
NoDoubleSlash after_slash (c ∷ cs) =
    ((after_slash && c == b'/') ≡ false) × NoDoubleSlash (c == b'/') cs

both_true : (a b : Bool) → (a && b) ≡ true → b ≡ a
both_true a b h = ground arith

copy_url-NoDoubleSlash :
    (after_slash : Bool) (url : Bytes) → NoDoubleSlash after_slash (copy_url after_slash url)
unfolding copy_url
copy_url-NoDoubleSlash after_slash [] = tt
copy_url-NoDoubleSlash after_slash (c ∷ cs) =
    let ih = copy_url-NoDoubleSlash (c == b'/') cs in
    elim (Bool-cases (after_slash && c == b'/')) [
      | inl skip ↦ rw skip (
          subst (λ b. NoDoubleSlash b (copy_url (c == b'/') cs))
            (both_true after_slash (c == b'/') skip) ih)
      | inr keep ↦ rw keep (keep, ih)
    ]

copy_url_fixed :
    (after_slash : Bool) (url : Bytes)
    → NoDoubleSlash after_slash url
    → copy_url after_slash url ≡ url
unfolding copy_url
copy_url_fixed after_slash [] h = refl
copy_url_fixed after_slash (c ∷ cs) h = rw (h.0, copy_url_fixed (c == b'/') cs h.1)

-- A normalised URL has no two slashes in a row, and a URL that has none is left as it is.
pub normalize_url_lem :
    (url : Bytes)
    → NoDoubleSlash false (normalize_url url) × (NoDoubleSlash false url → normalize_url url ≡ url)
unfolding normalize_url
normalize_url_lem url = (copy_url-NoDoubleSlash false url, copy_url_fixed false url)
