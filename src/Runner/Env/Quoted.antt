-- ===== src/Runner/Env/Quoted.antt =====
-- runner.go, `splitEnvLine` on a value between quotes.
use mechanicaldinosaurs.Base.{
  ℕ, suc, Bytes, index_byte-append, Lacks, is_space, trim_space, trim_space-tight, length, drop,
  take-length, drop-suc-length, ◌≡◌, ap, ◌∙◌, true, false, some, [], ◌∷◌, ◌++◌, arith,
}
use mechanicaldinosaurs.Runner.Env.{is_quote, quoted_value, env_value, with_key, split_env_line}

quote-nonspace : (q : ℕ) → is_quote q ≡ true → is_space q ≡ false
quote-nonspace q h = ground arith

quoted_value-quoted :
    (q : ℕ) (v : Bytes) → is_quote q ≡ true → Lacks q v → quoted_value (q ∷ (v ++ q ∷ [])) ≡ some v
unfolding quoted_value
quoted_value-quoted q v h l = ground (arith, index_byte-append v [] q l, take-length v (q ∷ []))

env_value-quoted :
    (q : ℕ) (v : Bytes) → is_quote q ≡ true → Lacks q v → env_value (q ∷ (v ++ q ∷ [])) ≡ v
unfolding env_value
env_value-quoted q v h l = rw (quoted_value-quoted q v h l, env_value)

-- A line with a value between two quotes gives the value as it stands, white space, "=" and " #"
-- included, if it does not hold the quote, for a key that is not empty, holds no "=" and has no
-- white space round it.
split_env_line-quoted :
    (c : ℕ) (cs : Bytes) (q : ℕ) (v : Bytes)
    → Lacks b'=' (c ∷ cs)
    → trim_space (c ∷ cs) ≡ c ∷ cs
    → is_quote q ≡ true
    → Lacks q v
    → split_env_line ((c ∷ cs) ++ b'=' ∷ (q ∷ (v ++ q ∷ []))) ≡ some (c ∷ cs, v)
unfolding split_env_line
split_env_line-quoted c cs q v l t h lv =
    let rest : Bytes = q ∷ (v ++ q ∷ []) in
    let nonspace = quote-nonspace q h in
    rw (index_byte-append (c ∷ cs) rest b'=' l, split_env_line)
      (ap
          (λ k.
            with_key (trim_space k)
              (env_value (trim_space (drop (suc (length cs)) (cs ++ b'=' ∷ rest)))))
          (take-length (c ∷ cs) (b'=' ∷ rest))
        ∙ ap (λ k. with_key k (env_value (trim_space (drop (suc (length cs)) (cs ++ b'=' ∷ rest)))))
            t
        ∙ ap (λ r. some (c ∷ cs, env_value (trim_space r))) (drop-suc-length cs b'=' rest)
        ∙ ap (λ r. some (c ∷ cs, env_value r)) (trim_space-tight q v q nonspace nonspace)
        ∙ ap (λ x. some (c ∷ cs, x)) (env_value-quoted q v h lv))
