-- ===== src/Blocktree/Granted.antt =====
-- `make_genesis_block_diff` of blocktree.rs against a count of what the transfers of a genesis give
-- to each address.
use mathlib.Core.Path.{fun_ext}
use ironcoin.Base.{
  ℕ, ◌+◌, ◌%◌, ◌^◌, ◌<◌, ◌≡◌, refl, ◌∙◌, ap, List, [], ◌∷◌, All, length, arith, inl, inr,
  Option-cases, Bool-cases, ◌==◌, list_eq, nat_eq, if◌then◌else◌, get_or,
}
use ironcoin.Base.Map.{Map, lookup, lookup-insert}
use ironcoin.Base.Run.{ok}
use ironcoin.Balance.Transfer.{from_slice-eq}
use ironcoin.Balance.View.{Accounts}
use ironcoin.Blocktree.Genesis.{add_tokens, collect_tokens}
use ironcoin.Blocktree.Given.{given}
use ironcoin.Crypto.PublicKey.{PublicKey, public_key_eq, public_key_beq, public_key_beq_iff}
use ironcoin.External.{Sodium}
use ironcoin.Message.Ledger.{Transfer, get_bytes, get_num, new_balance}

-- The tokens of all the transfers to an address together.
abbrev pub tokens_to : PublicKey → List Transfer → ℕ
tokens_to q [] = 0
tokens_to q (transfer ∷ transfers) =
    (if get_bytes transfer.destination_pk == q.bytes then get_num transfer.tokens else 0)
    + tokens_to q transfers

-- Each address has the tokens of the transfers to it, as a `u64`, and no operation.
abbrev pub granted : List Transfer → Accounts
granted transfers q = new_balance (tokens_to q transfers % 2 ^ 64) 0

abbrev held : Map PublicKey ℕ → PublicKey → ℕ
held cache q = get_or (lookup q cache) 0

abbrev IsSmall : Map PublicKey ℕ → Type 0
IsSmall cache = (q : PublicKey) → held cache q < 2 ^ 64

add_tokens-held :
    (destination : PublicKey) (tokens : ℕ) (cache : Map PublicKey ℕ) (q : PublicKey)
    → tokens < 2 ^ 64
    → held (add_tokens destination tokens cache) q
      ≡ (if destination == q then (held cache destination + tokens) % 2 ^ 64 else held cache q)
unfolding add_tokens
add_tokens-held destination tokens cache q small = elim (Option-cases (lookup destination cache)) [
  | inl new ↦ rw (new, add_tokens) (ground (arith, lookup-insert destination q tokens cache))
  | inr (old, e) ↦
      rw (e, add_tokens)
        (ground (arith, lookup-insert destination q ((old + tokens) % 2 ^ 64) cache))
]

given-held :
    (cache : Map PublicKey ℕ) (q : PublicKey) → given cache q ≡ new_balance (held cache q) 0
given-held cache q = elim (Option-cases (lookup q cache)) [
  | inl new ↦ rw (new, given, get_or) refl
  | inr (tokens, e) ↦ rw (e, given, get_or) refl
]

module _ ⦃sodium : Sodium⦄ where
  -- A transfer to an address of the right length, of a number of tokens that is a `u64`.
  abbrev pub IsGrant : Transfer → Type 0
  IsGrant transfer =
      (length (get_bytes transfer.destination_pk) ≡ sodium.public_key_bytes)
      × (get_num transfer.tokens < 2 ^ 64)

  collect_tokens-held :
      (transfers : List Transfer) (cache : Map PublicKey ℕ)
      → All IsGrant transfers
      → IsSmall cache
      → (result : Map PublicKey ℕ) × (collect_tokens cache transfers ≡ ok result)
        × ((q : PublicKey) → held result q ≡ (held cache q + tokens_to q transfers) % 2 ^ 64)
  unfolding collect_tokens
  collect_tokens-held [] cache h small = (cache, refl, λ q. omega (arith, small q))
  collect_tokens-held (transfer ∷ transfers) cache ((sized, few), h) small =
      let bytes = get_bytes transfer.destination_pk in
      let tokens = get_num transfer.tokens in
      let destination : PublicKey = record { bytes = bytes } in
      let next = add_tokens destination tokens cache in
      let step : (q : PublicKey)
          → held next q
            ≡ (if bytes == q.bytes then (held cache q + tokens) % 2 ^ 64 else held cache q) =
        λ q.
          unfold public_key_beq in
          elim (Bool-cases (bytes == q.bytes)) [
            | inl same ↦
                let here : destination ≡ q = (public_key_beq_iff destination q).0 same in
                add_tokens-held destination tokens cache q few
                ∙ rw same (ap (λ (k : PublicKey). (held cache k + tokens) % 2 ^ 64) here)
            | inr apart ↦ add_tokens-held destination tokens cache q few ∙ rw apart refl
          ] in
      let (result, e, counts) =
        collect_tokens-held transfers next h (λ q. ground (arith, step q, small q)) in
      (
        result,
        rw (from_slice-eq bytes destination refl sized) e,
        λ q. ground (arith, step q, counts q, small q),
      )

  -- The cache that the transfers leave gives out what they grant.
  pub collect_tokens-granted :
      (transfers : List Transfer)
      → All IsGrant transfers
      → (cache : Map PublicKey ℕ) × (collect_tokens [] transfers ≡ ok cache)
        × (given cache ≡ granted transfers)
  collect_tokens-granted transfers h =
      let (cache, e, counts) = collect_tokens-held transfers [] h (λ q. omega arith) in
      let count : (q : PublicKey) → held cache q ≡ tokens_to q transfers % 2 ^ 64 =
        λ q. omega (arith, counts q) in
      (cache, e, fun_ext (λ q. given-held cache q ∙ ap (λ (n : ℕ). new_balance n 0) (count q)))
