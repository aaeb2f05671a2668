-- ===== src/Runner/PrefixWriter/Lines.antt =====
-- runner.go, `prefixWriter.Write`: the writer byte by byte, and line by line.
use mechanicaldinosaurs.Base.{
  ℕ, zero, suc, ◌≤◌, Bytes, index_byte-cut, Lacks, split, split-cons, split-separator, split-byte,
  ◌==◌, if◌then◌else◌, Bool-cases, length, take, drop, ◌≡◌, refl, sym, ap, ◌∙◌, inl, inr, List, [],
  ◌∷◌, ◌++◌, append_assoc, append-nil, arith,
}
use mechanicaldinosaurs.Runner.PrefixWriter.{
  PrefixWriter, print_line, append_buf, write_loop, write,
}

-- One byte: a newline prints the line, any other byte is kept.
abbrev pub step : PrefixWriter → ℕ → PrefixWriter
step w c = if c == b'\n' then print_line w else append_buf w (c ∷ [])

abbrev pub steps : PrefixWriter → Bytes → PrefixWriter
steps w [] = w
steps w (c ∷ s) = steps (step w c) s

pub steps-append : (w : PrefixWriter) (p q : Bytes) → steps w (p ++ q) ≡ steps (steps w p) q
steps-append w [] q = refl
steps-append w (c ∷ p) q = steps-append (step w c) p q

steps-buf : (w : PrefixWriter) (p : Bytes) → Lacks b'\n' p → steps w p ≡ append_buf w p
steps-buf w [] h = ap (λ b. record w { buf = b }) (sym (append-nil w.buf))
steps-buf w (c ∷ p) (h, hs) =
    ground (arith, steps-buf (append_buf w (c ∷ [])) p hs, append_assoc w.buf (c ∷ []) p)

-- With fuel for each byte the loop does what the bytes do one by one.
write_loop-steps :
    (fuel : ℕ) (w : PrefixWriter) (p : Bytes) → length p ≤ fuel → write_loop fuel w p ≡ steps w p
unfolding write_loop
write_loop-steps zero w [] h = refl
write_loop-steps zero w (c ∷ s) h = absurd (omega arith)
write_loop-steps (suc fuel) w [] h = refl
write_loop-steps (suc fuel) w (c ∷ s) h = elim (index_byte-cut (c ∷ s) b'\n') [
  | inl (n, l) ↦ rw (n, write_loop) (sym (steps-buf w (c ∷ s) l))
  | inr (i, n, l, e, k) ↦
      rw (n, write_loop)
        (write_loop-steps fuel _ (drop (suc i) (c ∷ s)) (omega (arith, ap length e, k))
          ∙ ap (λ v. steps (print_line v) (drop (suc i) (c ∷ s))) (sym (steps-buf w _ l))
          ∙ sym (ap (steps w) e ∙ steps-append w (take i (c ∷ s)) _))
]

-- What a component has printed so far does not depend on how it was cut into calls of `Write`: two
-- calls leave the writer as one call with both texts does.
write-append : (w : PrefixWriter) (p q : Bytes) → (write w (p ++ q)).0 ≡ (write (write w p).0 q).0
unfolding write
write-append w p q =
    write_loop-steps (length (p ++ q)) w (p ++ q) (omega arith)
    ∙ steps-append w p q
    ∙ ap (λ v. steps v q) (sym (write_loop-steps (length p) w p (omega arith)))
    ∙ sym (write_loop-steps (length q) (write_loop (length p) w p) q (omega arith))

-- The parts of a text between newlines: each but the last ends a line, which is printed with what
-- the buffer held; the last stays in the buffer.
abbrev pub print_parts : PrefixWriter → List Bytes → PrefixWriter
print_parts w [] = w
print_parts w (p ∷ []) = append_buf w p
print_parts w (p ∷ q ∷ ps) = print_parts (print_line (append_buf w p)) (q ∷ ps)

print_parts-byte :
    (w : PrefixWriter) (c : ℕ) (q : Bytes) (qs : List Bytes)
    → print_parts w ((c ∷ q) ∷ qs) ≡ print_parts (append_buf w (c ∷ [])) (q ∷ qs)
print_parts-byte w c q [] = ap (λ b. record w { buf = b }) (sym (append_assoc w.buf (c ∷ []) q))
print_parts-byte w c q (r ∷ qs) =
    ap (λ b. print_parts (print_line (record w { buf = b })) (r ∷ qs))
      (sym (append_assoc w.buf (c ∷ []) q))

steps-print_parts : (w : PrefixWriter) (p : Bytes) → steps w p ≡ print_parts w (split p b'\n')
unfolding split
steps-print_parts w [] = ap (λ b. record w { buf = b }) (sym (append-nil w.buf))
steps-print_parts w (c ∷ p) =
    let (q, qs, h) = split-cons p b'\n' in
    elim (Bool-cases (c == b'\n')) [
      | inl e ↦
          rw (split-separator c p b'\n' e, e)
            (steps-print_parts (print_line w) p
              ∙ ap (print_parts (print_line w)) h
              ∙ ap (λ b. print_parts (print_line (record w { buf = b })) (q ∷ qs))
                  (sym (append-nil w.buf))
              ∙ sym (ap (λ ps. print_parts w ([] ∷ ps)) h))
      | inr e ↦
          rw (split-byte c p b'\n' e h, e)
            (steps-print_parts (append_buf w (c ∷ [])) p
              ∙ ap (print_parts _) h
              ∙ sym (print_parts-byte w c q qs))
    ]

-- The text that the parts print: each but the last is a line behind the prefix, the first of them
-- with what the buffer holds.
abbrev pub printed : Bytes → Bytes → List Bytes → Bytes
printed prefix buf [] = []
printed prefix buf (p ∷ []) = []
printed prefix buf (p ∷ q ∷ ps) =
    (prefix ++ ((buf ++ p) ++ b'\n' ∷ [])) ++ printed prefix [] (q ∷ ps)

-- What the buffer holds after the parts.
abbrev pub kept : Bytes → List Bytes → Bytes
kept buf [] = buf
kept buf (p ∷ []) = buf ++ p
kept buf (p ∷ q ∷ ps) = kept [] (q ∷ ps)

print_parts-printed :
    (w : PrefixWriter) (ps : List Bytes)
    → print_parts w ps
      ≡ record { out = w.out ++ printed w.prefix w.buf ps; prefix = w.prefix; buf = kept w.buf ps }
print_parts-printed w [] = ap (λ o. record w { out = o }) (sym (append-nil w.out))
print_parts-printed w (p ∷ []) =
    ap (λ o. record { out = o; prefix = w.prefix; buf = w.buf ++ p }) (sym (append-nil w.out))
print_parts-printed w (p ∷ q ∷ ps) =
    print_parts-printed (print_line (append_buf w p)) (q ∷ ps)
    ∙ ap (λ o. record { out = o; prefix = w.prefix; buf = kept [] (q ∷ ps) })
        (append_assoc w.out (w.prefix ++ ((w.buf ++ p) ++ b'\n' ∷ []))
          (printed w.prefix [] (q ∷ ps)))

-- `Write` prints the complete lines of its text, each behind the prefix and the first with what the
-- buffer held, and keeps the rest in the buffer.
pub write-printed :
    (w : PrefixWriter) (p : Bytes)
    → (write w p).0 ≡ record {
      out = w.out ++ printed w.prefix w.buf (split p b'\n');
      prefix = w.prefix;
      buf = kept w.buf (split p b'\n');
    }
unfolding write
write-printed w p =
    write_loop-steps (length p) w p (omega arith)
    ∙ steps-print_parts w p
    ∙ print_parts-printed w (split p b'\n')
