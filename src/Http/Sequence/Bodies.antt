-- ===== src/Http/Sequence/Bodies.antt =====
-- What a message takes of the bytes behind its headers.
use octopus_mahimahi.Common.{
  ℕ, ◌+◌, ◌-◌, ◌≤◌, ◌<◌, ◌≡◌, ◌⊎◌, refl, ap, ap₂, sym, ◌∙◌, subst, true, false, ◌++◌, append_assoc,
  min, Result, ok, fail, assertion, ◌>>=◌, arith, length, length-append, take, ltb, ◌==◌,
  Bool-cases, inl, inr, if◌then◌else◌,
}
use octopus_mahimahi.Packet.{Bytes}
use octopus_mahimahi.Http.Message.{HttpMessage, Methods, body_pending, complete, read_in_body}
use octopus_mahimahi.Http.Sequence.Lines.{take-past, take_all, length-take, take-append}

-- A body of known size takes what it has room for.
abbrev pub amount : {E : Type 0} → Bytes → HttpMessage E → ℕ
amount str m = min (m.expected_size.1 - length m.body) (length str)

abbrev pub filled : {E : Type 0} → Bytes → HttpMessage E → HttpMessage E
filled str m =
    let body1 = m.body ++ take (amount str m) str in
    record m {
      body = body1;
      state = if length body1 == m.expected_size.1 then complete else m.state;
    }

module _ {E : Type 0} (methods : Methods E) where
  pub read_known :
      (str : Bytes) (m : HttpMessage E)
      → m.state ≡ body_pending
      → m.expected_size.0 ≡ true
      → length m.body ≤ m.expected_size.1
      → read_in_body methods str m ≡ ok (amount str m, filled str m)
  unfolding read_in_body
  read_known str m s k h = ground arith

  -- The last bytes of a body.
  pub read_full :
      (str : Bytes) (m : HttpMessage E)
      → m.state ≡ body_pending
      → m.expected_size.0 ≡ true
      → length m.body ≤ m.expected_size.1
      → m.expected_size.1 ≤ length m.body + length str
      → let room = m.expected_size.1 - length m.body in
        read_in_body methods str m
        ≡ ok (room, record m { body = m.body ++ take room str; state = complete })
  read_full str m s k h f =
      let room = m.expected_size.1 - length m.body in
      let now : amount str m ≡ room = omega (arith, f) in
      let done : (length (m.body ++ take room str) == m.expected_size.1) ≡ true =
        ground (arith, length-append m.body (take room str), length-take room str, f, h) in
      read_known str m s k h
      ∙ ap
          (λ n. ok (
            n,
            record m {
              body = m.body ++ take n str;
              state =
                  if length (m.body ++ take n str) == m.expected_size.1 then complete else m.state;
            },
          ))
          now
      ∙ ap
          (λ b. ok (
            room,
            record m { body = m.body ++ take room str; state = if b then complete else m.state },
          ))
          done

  -- Bytes that do not fill the body.
  pub read_part :
      (str : Bytes) (m : HttpMessage E)
      → m.state ≡ body_pending
      → m.expected_size.0 ≡ true
      → length m.body + length str < m.expected_size.1
      → read_in_body methods str m ≡ ok (length str, record m { body = m.body ++ str })
  read_part str m s k f =
      let now : amount str m ≡ length str = omega (arith, f) in
      let part : (length (m.body ++ str) == m.expected_size.1) ≡ false =
        ground (arith, length-append m.body str, f) in
      read_known str m s k (omega (arith, f))
      ∙ ap
          (λ n. ok (
            n,
            record m {
              body = m.body ++ take n str;
              state =
                  if length (m.body ++ take n str) == m.expected_size.1 then complete else m.state;
            },
          ))
          now
      ∙ ap
          (λ b. ok (
            length str,
            record m {
              body = m.body ++ b;
              state = if length (m.body ++ b) == m.expected_size.1 then complete else m.state;
            },
          ))
          (take_all str)
      ∙ ap
          (λ b. ok (
            length str,
            record m { body = m.body ++ str; state = if b then complete else m.state },
          ))
          part

  pub read_overfull :
      (str : Bytes) (m : HttpMessage E)
      → m.state ≡ body_pending
      → m.expected_size.0 ≡ true
      → m.expected_size.1 < length m.body
      → read_in_body methods str m ≡ fail assertion
  unfolding read_in_body
  read_overfull str m s k h = ground arith

  pub read_unknown :
      (str : Bytes) (m : HttpMessage E)
      → m.state ≡ body_pending
      → m.expected_size.0 ≡ false
      → read_in_body methods str m ≡ methods.read_in_complex_body str m
  unfolding read_in_body
  read_unknown str m s k = ground arith

module _ {E : Type 0} (more : Bytes) where
  -- What a read says of the read that has more bytes.
  abbrev pub Continues :
      (Bytes → HttpMessage E → Result (ℕ × HttpMessage E))
      → Bytes
      → HttpMessage E
      → Result (ℕ × HttpMessage E)
      → Type 0
  Continues reads str m (fail e) = reads (str ++ more) m ≡ fail e
  Continues reads str m (ok r) =
      ((r.1.state ≡ complete) × (r.0 ≤ length str) × (reads (str ++ more) m ≡ ok r))
      ⊎ ((r.0 ≡ length str)
          × (r.1.state ≡ body_pending)
          × (reads (str ++ more) m ≡ (reads more r.1 >>= λ s. ok (length str + s.0, s.1))))

module _ {E : Type 0} (methods : Methods E) (more : Bytes) where
  pub known_ends :
      (str : Bytes) (m : HttpMessage E)
      → m.state ≡ body_pending
      → m.expected_size.0 ≡ true
      → length m.body ≤ m.expected_size.1
      → m.expected_size.1 ≤ length m.body + length str
      → Continues more (read_in_body methods) str m (read_in_body methods str m)
  known_ends str m s k h f =
      let room = m.expected_size.1 - length m.body in
      let fed : m.expected_size.1 ≤ length m.body + length (str ++ more) =
        omega (arith, f, length-append str more) in
      subst (Continues more (read_in_body methods) str m) (sym (read_full methods str m s k h f)) (
        inl (
          refl,
          omega (arith, f),
          read_full methods (str ++ more) m s k h fed
              ∙ ap (λ b. ok (room, record m { body = m.body ++ b; state = complete }))
                  (take-append room str more (omega (arith, f))),
        ))

  pub known_waits :
      (str : Bytes) (m : HttpMessage E)
      → m.state ≡ body_pending
      → m.expected_size.0 ≡ true
      → length m.body + length str < m.expected_size.1
      → Continues more (read_in_body methods) str m (read_in_body methods str m)
  known_waits str m s k f =
      let m1 = record m { body = m.body ++ str } in
      let held = length-append m.body str in
      let more_held = length-append str more in
      let again : read_in_body methods (str ++ more) m
          ≡ (read_in_body methods more m1 >>= λ r. ok (length str + r.0, r.1)) =
        elim (Bool-cases (ltb (length m.body + length str + length more) m.expected_size.1)) [
          | inl e ↦
              read_part methods (str ++ more) m s k (ground (arith, e, more_held))
              ∙ ap₂ (λ n b. ok (n, record m { body = b })) more_held
                  (sym (append_assoc m.body str more))
              ∙ ap (λ x. x >>= λ r. ok (length str + r.0, r.1))
                  (sym (read_part methods more m1 s k (ground (arith, e, held))))
          | inr e ↦
              let full : m.expected_size.1 ≤ length m.body + length str + length more =
                ground (arith, e) in
              let room : m.expected_size.1 - length m.body
                  ≡ length str + (m.expected_size.1 - length m1.body) =
                omega (arith, held, f) in
              read_full methods (str ++ more) m s k (omega (arith, f))
                (omega (arith, full, more_held))
              ∙ ap
                  (λ n.
                    ok (n, record m { body = m.body ++ take n (str ++ more); state = complete }))
                  room
              ∙ ap
                  (λ b. ok (
                    length str + (m.expected_size.1 - length m1.body),
                    record m { body = b; state = complete },
                  ))
                  (ap (λ b. m.body ++ b) (take-past str more (m.expected_size.1 - length m1.body))
                    ∙ sym
                        (append_assoc m.body str (take (m.expected_size.1 - length m1.body) more)))
              ∙ ap (λ x. x >>= λ r. ok (length str + r.0, r.1))
                  (sym (
                    read_full methods more m1 s k (omega (arith, held, f))
                      (omega (arith, held, full))))
        ] in
      subst (Continues more (read_in_body methods) str m) (sym (read_part methods str m s k f))
        (inr (refl, s, again))
