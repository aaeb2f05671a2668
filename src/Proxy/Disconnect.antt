-- ===== src/Proxy/Disconnect.antt =====
-- Which bytes of a connection disconnect a session.
use mechanicaldinosaurs.Base.{
  subst, ℕ, zero, suc, Bytes, equal, equal_iff, equal_self, ◌==◌, ==_iff, Bool-cases, length, take,
  drop, take-length, drop-length, ◌≡◌, ◌∙◌, ap, sym, refl, ◌↔◌, some, [], ◌∷◌, ◌++◌, arith, inl,
  inr,
}
use mechanicaldinosaurs.Proxy.{session_id_length, read_disconnect}

take-drop : (n : ℕ) (s : Bytes) → take n s ++ drop n s ≡ s
take-drop zero s = refl
take-drop (suc n) [] = refl
take-drop (suc n) (c ∷ s) = ap (◌∷◌ c) (take-drop n s)

take-prefix : (n : ℕ) (p s : Bytes) → length p ≡ n → take n (p ++ s) ≡ p
take-prefix n p s h = subst (λ k. take k (p ++ s) ≡ p) h (take-length p s)

drop-prefix : (n : ℕ) (p s : Bytes) → length p ≡ n → drop n (p ++ s) ≡ s
drop-prefix n p s h = subst (λ k. drop k (p ++ s) ≡ s) h (drop-length p s)

-- A connection disconnects the session id exactly if it sends the secret, of 128 bytes, then an id
-- of 36 bytes, and then anything.
pub read_disconnect_iff :
    (secret stream id : Bytes)
    → length secret ≡ 128
    → (read_disconnect secret stream ≡ some id)
      ↔ ((length id ≡ session_id_length) × ((rest : Bytes) × (stream ≡ secret ++ (id ++ rest))))
unfolding read_disconnect
read_disconnect_iff secret stream id n = (forth, back)
  where
    forth :
        read_disconnect secret stream ≡ some id
        → (length id ≡ session_id_length) × ((rest : Bytes) × (stream ≡ secret ++ (id ++ rest)))
    forth h = elim (Bool-cases (length (take 128 stream) == 128)) [
      | inr c ↦ absurd (ground arith)
      | inl c ↦ elim (Bool-cases (equal (take 128 stream) secret)) [
        | inr q ↦ absurd (ground arith)
        | inl q ↦ elim (Bool-cases (length (take 36 (drop 128 stream)) == 36)) [
          | inr k ↦ absurd (ground arith)
          | inl k ↦
              let same : take 36 (drop 128 stream) ≡ id = ground arith in
              (
                ap length (sym same) ∙ (==_iff _ 36).0 k,
                (
                  drop 36 (drop 128 stream),
                  sym (take-drop 128 stream)
                      ∙ ap (λ t. t ++ drop 128 stream) ((equal_iff _ secret).0 q)
                      ∙ ap (λ t. secret ++ t)
                          (sym (take-drop 36 (drop 128 stream))
                            ∙ ap (λ t. t ++ drop 36 (drop 128 stream)) same),
                ),
              )
        ]
      ]
    ]

    back :
        (length id ≡ session_id_length) × ((rest : Bytes) × (stream ≡ secret ++ (id ++ rest)))
        → read_disconnect secret stream ≡ some id
    back (l, (rest, e)) =
        let given : take 128 stream ≡ secret =
          ap (take 128) e ∙ take-prefix 128 secret (id ++ rest) n in
        let asked : take 36 (drop 128 stream) ≡ id =
          ap (λ t. take 36 (drop 128 t)) e
          ∙ ap (take 36) (drop-prefix 128 secret (id ++ rest) n)
          ∙ take-prefix 36 id rest l in
        ground (arith, given, asked, equal_self secret)
