-- ===== src/Header/Tests.antt =====
-- A test of header lines, and an instance of their theorem.
use octopus_mahimahi.Common.{◌≡◌, [], ◌∷◌, arith, ok}
use octopus_mahimahi.Header.{http_header, str}
use octopus_mahimahi.Header.Lines.{http_header-str}

-- "Te: 7:"
http_header-str_example :
    http_header (str (record { key = 84 ∷ 101 ∷ []; value = 55 ∷ 58 ∷ [] }))
    ≡ ok (record { key = 84 ∷ 101 ∷ []; value = 55 ∷ 58 ∷ [] })
http_header-str_example = http_header-str (84 ∷ 101 ∷ []) (58 ∷ []) 55 (omega arith) (omega arith)
