-- ===== src/Admin.antt =====
-- What the administration's modules share: the request's headers, and the client that they stand for
-- (frontend/lib/adminSecurity.ts). The children model its rate limits, its sessions and its logins.
pub mod RateLimits
pub mod Sessions
pub mod Logins
mod Tests
use xdcid.Common.{
  Option, none, some, [], ◌∷◌, ◌++◌, Text, text, text_eq, trim, split, take, not, Bool, true, false,
  ◌&&◌,
}

-- The headers that are read; `none` for one that the request does not have.
pub record Headers : Type 0 where
  pub origin : Option Text
  pub sec_fetch_site : Option Text
  pub forwarded_for : Option Text
  pub vercel_forwarded_for : Option Text
  pub real_ip : Option Text
  pub user_agent : Option Text
  pub cookie : Option Text

-- `value || rest`, where a text that is empty counts as missing.
pub or_text : Option Text → Text → Text
or_text none rest = rest
or_text (some []) rest = rest
or_text (some (c ∷ s)) rest = c ∷ s

-- `value?.trim()`
trimmed : Option Text → Option Text
trimmed none = none
trimmed (some s) = some (trim s)

-- `value?.split(",")[0]?.trim()`
first_trimmed : Option Text → Option Text
first_trimmed none = none
first_trimmed (some s) = elim (split b',' s) [ [] ↦ none | first ∷ rest ↦ some (trim first) ]

-- `value?.slice(0, 512)`
shortened : Option Text → Option Text
shortened none = none
shortened (some s) = some (take 512 s)

-- `!fetchSite || fetchSite === "same-origin"`
same_site : Option Text → Bool
unfolding or_text
same_site site = text_eq (or_text site (text "same-origin")) (text "same-origin")

same_url_origin : Option Text → Option Text → Bool
same_url_origin (some a) (some b) = text_eq a b
same_url_origin _ _ = false

-- The origin of a text that is a URL; `none` where `new URL` throws.
pub is_same_origin : (Text → Option Text) → Text → Headers → Bool
unfolding same_site
is_same_origin url_origin url headers = elim headers.origin [
  | none ↦ false
  | some [] ↦ false
  | some (c ∷ supplied) ↦
      same_site headers.sec_fetch_site
      && same_url_origin (url_origin (c ∷ supplied)) (url_origin url)
]

-- The client that a request comes from, of the keyed hash of a text.
pub admin_client_binding : (Text → Text) → Headers → Text
unfolding or_text trimmed first_trimmed shortened
admin_client_binding fingerprint headers =
    let address = or_text (trimmed headers.vercel_forwarded_for) (
      or_text (first_trimmed headers.forwarded_for)
        (or_text (trimmed headers.real_ip) (text "unknown"))) in
    let user_agent = or_text (shortened headers.user_agent) (text "unknown") in
    fingerprint (text "admin-client:" ++ address ++ text ":" ++ user_agent)
