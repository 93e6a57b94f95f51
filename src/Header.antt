-- ===== src/Header.antt =====
-- src/http/http_header.hh and .cc: one line of an HTTP header.
pub mod Lines
mod Tests
use octopus_mahimahi.Common.{
  ℕ, ◌+◌, ◌≡◌, Bool, List, [], ◌∷◌, ◌++◌, none, some, Result, ok, fail, thrown, ◌>>=◌, take, null,
  ◌==◌, if◌then◌else◌,
}
use octopus_mahimahi.Packet.{Bytes}
use octopus_mahimahi.Chunked.{find_in, substr}

pub record HttpHeader : Type 0 where
  pub key : Bytes
  pub value : Bytes

-- The rest from `find_first_not_of( " " )` on; nothing if there are only spaces.
abbrev pub from_nonspace : Bytes → Bytes
from_nonspace [] = []
from_nonspace (c ∷ s) = let later = from_nonspace s in if c == 32 then later else c ∷ s

-- `HTTPHeader( buf )`
unfoldable pub http_header : Bytes → Result HttpHeader
http_header buf = elim (find_in (58 ∷ []) buf) [
  | none ↦ fail thrown
  | some colon_location ↦ do
    value_temp ← substr (colon_location + 1) buf
    let value = from_nonspace value_temp
    ok (record { key = take colon_location buf; value = if null value then value_temp else value })
]

unfoldable pub str : HttpHeader → Bytes
str h = h.key ++ (58 ∷ 32 ∷ h.value)
