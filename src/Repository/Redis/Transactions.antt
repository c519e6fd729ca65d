-- ===== src/Repository/Redis/Transactions.antt =====
-- What a transaction keeps, also if it fails.
use tsdns.Prelude.{sym, List, [], ◌∷◌, Bytes, Result-cases, inl, inr}
use mathlib.Core.Path.{subst}
use tsdns.Repository.Redis.Client.{Command, Keys, Redis, RedisLaws, after_commands}

module _ {D : Type 0} (client : Redis D) (laws : RedisLaws client) where
  open laws use {keys}

  -- A property of the store that a transaction keeps is kept also if the transaction fails.
  pub tx_keeps :
      (P : Keys → Type 0) (cs : List Command) (r : D)
      → P (keys r)
      → P (after_commands cs (keys r))
      → P (keys (client.tx_pipeline cs r).1)
  tx_keeps P cs r before after = elim (Result-cases (client.tx_pipeline cs r).0) [
    | inl h ↦ subst P (sym (laws.tx_ok r cs h)) after
    | inr (e, h) ↦ elim (laws.tx_err r cs e h) [
      | inl same ↦ subst P (sym same) before
      | inr done ↦ subst P (sym done) after
    ]
  ]

  pub del_keeps :
      (P : Keys → Type 0) (k : Bytes) (r : D)
      → P (keys r)
      → P (after_commands (Command.del k ∷ []) (keys r))
      → P (keys (client.del_key k r).1)
  del_keeps P k r before after = elim (Result-cases (client.del_key k r).0) [
    | inl h ↦ subst P (sym (laws.del_ok r k h)) after
    | inr (e, h) ↦ elim (laws.del_err r k e h) [
      | inl same ↦ subst P (sym same) before
      | inr done ↦ subst P (sym done) after
    ]
  ]
