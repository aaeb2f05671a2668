-- ===== src/Runner/PrefixWriter.antt =====
-- runner.go, `prefixWriter`: the output of a component, each line behind its name.
pub mod Lines
use mechanicaldinosaurs.Base.{
  ℕ, zero, suc, Bytes, index_byte, length, take, drop, none, some, [], ◌∷◌, ◌++◌,
}

-- `out` is what has been written to the underlying writer.
pub record PrefixWriter : Type 0 where
  pub out : Bytes
  pub prefix : Bytes
  pub buf : Bytes

unfoldable pub new_prefix_writer : Bytes → Bytes → PrefixWriter
new_prefix_writer out name = record {
  out = out;
  prefix = b'[' ∷ (name ++ b']' ∷ b' ' ∷ []);
  buf = [];
}

-- The line in the buffer is printed, and the buffer reset.
abbrev pub print_line : PrefixWriter → PrefixWriter
print_line w = record w { out = w.out ++ (w.prefix ++ (w.buf ++ b'\n' ∷ [])); buf = [] }

abbrev pub append_buf : PrefixWriter → Bytes → PrefixWriter
append_buf w p = record w { buf = w.buf ++ p }

-- The loop of `Write` on fuel: each round takes a line off p, or ends it.
unfoldable pub write_loop : ℕ → PrefixWriter → Bytes → PrefixWriter
unfolding index_byte
write_loop zero w p = w
write_loop (suc fuel) w [] = w
write_loop (suc fuel) w (c ∷ s) = elim (index_byte (c ∷ s) b'\n') [
  | none ↦ append_buf w (c ∷ s)
  | some idx ↦
      write_loop fuel (print_line (append_buf w (take idx (c ∷ s)))) (drop (suc idx) (c ∷ s))
]

-- `Write`, with the number that it returns.
unfoldable pub write : PrefixWriter → Bytes → PrefixWriter × ℕ
unfolding write_loop
write w p = (write_loop (length p) w p, length p)
