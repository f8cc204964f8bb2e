-- ===== src/Agents/Retry.antt =====
-- tenacity's `@retry(stop=stop_after_attempt(n))` around a call that may raise: the first attempt
-- that returns gives the result. `last` is what is raised after the last attempt, given what that
-- attempt raised: with `reraise=True` the exception itself, otherwise a `RetryError`.
use crucible.Base.{ℕ, zero, suc}
use crucible.Db.Run.{Exn}
use crucible.Worker.Result.{Result, ok, raised}

module _ {A : Type 0} (last : Exn → Exn) (call : ℕ → Result A) where
  -- `left` attempts after the one with the number `n`
  unfoldable pub retry_from : (n left : ℕ) → Result A
  retry_from n zero = elim (call n) [ ok a ↦ ok a | raised e ↦ raised (last e) ]
  retry_from n (suc left) =
      let rest = retry_from (suc n) left in elim (call n) [ ok a ↦ ok a | raised e ↦ rest ]

  -- `stop_after_attempt(3)`
  unfoldable pub retry_3 : Result A
  unfolding retry_from
  retry_3 = retry_from 0 2
