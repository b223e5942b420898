-- ===== src/Miniscript/Encode/Limits.antt =====
-- What `encode` of src/miniscript/astelem.rs pushes, against the limits that `check_global_validity`
-- of src/miniscript/context.rs puts on `pk_cost`.
use rust_miniscript.Prelude.{ℕ, ◌+◌, ◌≤◌, arith}
use rust_miniscript.Primitives.Locktime.{Bitcoin}
use rust_miniscript.Miniscript.Ast.{MiniscriptKey, Inscription, Miniscript}
use rust_miniscript.Miniscript.Context.{Context}
use rust_miniscript.Miniscript.Build.{Everywhere, IsBuilt}
use rust_miniscript.Miniscript.Build.Size.Cost.{uncompressed, wide}
use rust_miniscript.Miniscript.Build.Size.Limits.{
  size_limit, CompressedKeys, script_size-size_limit, compressed-size_limit,
}
use rust_miniscript.Miniscript.Encode.{ScriptBuilder, ToPublicKey, BuilderLaws, encode}
use rust_miniscript.Miniscript.Encode.Size.{HasHashLengths, HasSmallNumbers, encode-script_size}

module _ (B : Bitcoin) {K : MiniscriptKey} (S : ScriptBuilder) (P : ToPublicKey S K)
    (size : Inscription → ℕ) (L : BuilderLaws S P size) (c : Context) where
  -- A tree that `from_ast` builds, whose hashes have the lengths of their types, whose lock times are
  -- below 2 ^ 32 and each `thresh` of which needs fewer than 2 ^ 39, is encoded to at most as many bytes
  -- as the limit of its context, and one more for each uncompressed key of a `pk_k` or a `multi`. The
  -- bytes that `wide` counts remain unused.
  pub encode-size_limit :
      (ms : Miniscript B K)
      → IsBuilt size c ms
      → Everywhere HasHashLengths ms
      → Everywhere HasSmallNumbers ms
      → (b : S.Builder)
      → L.len (encode B S P c b ms) + wide ms ≤ L.len b + size_limit B c + uncompressed ms
  encode-size_limit ms h g m b =
      omega
        (arith, encode-script_size B S P size L c ms h g m b, script_size-size_limit size c ms h)

  -- In the Segwitv0 and Tapscript contexts, a tree that `from_ast` builds, whose hashes have the
  -- lengths of their types, whose lock times are below 2 ^ 32 and each `thresh` of which needs fewer
  -- than 2 ^ 39, is encoded to at most as many bytes as the limit of the context.
  pub encode-size_limit_compressed :
      (ms : Miniscript B K)
      → CompressedKeys c
      → IsBuilt size c ms
      → Everywhere HasHashLengths ms
      → Everywhere HasSmallNumbers ms
      → (b : S.Builder) → L.len (encode B S P c b ms) ≤ L.len b + size_limit B c
  encode-size_limit_compressed ms d h g m b =
      omega
        (arith, encode-script_size B S P size L c ms h g m b, compressed-size_limit size c ms d h)
