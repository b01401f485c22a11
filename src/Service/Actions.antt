-- ===== src/Service/Actions.antt =====
-- The shared state, and the actions of the use cases on it: they change the state and may raise.
-- What was written before a raise stays written, but for the view of a transaction.
use video_site.Common.{
  ℕ, suc, String, Bool, Option, none, some, List, [], ◌∷◌, ◌++◌, ◌==◌, text_eq, if◌then◌else◌,
}
use video_site.Errors.{Error, Result, ok, err}
use video_site.Entities.User.{User}
use video_site.Database.{Db}
use video_site.RateLimit.{Counters}
use video_site.Service.Dto.{EmailMessage}

-- Cached accounts, by the key of the cache.
abbrev pub Cache : Type 0
Cache = List (String × User)

abbrev pub cached : Cache → String → Option User
cached [] key = none
cached ((k, u) ∷ rest) key = if k == key then some u else cached rest key

abbrev pub uncache : Cache → String → Cache
uncache [] key = []
uncache ((k, u) ∷ rest) key =
    let others = uncache rest key in if k == key then others else (k, u) ∷ others

pub record World : Type 0 where
  -- what has been committed, and the view of the open transaction
  pub db : Db
  pub work : Db
  pub counters : Counters
  pub cache : Cache
  -- the messages handed to the email sender, which never raises
  pub outbox : List EmailMessage
  -- how many calls were made whose answer comes from outside
  pub calls : ℕ

abbrev pub Action : Type 0 → Type 0
Action A = World → Result A × World

module _ {A : Type 0} where
  abbrev pub pure : A → Action A
  pure a w = (ok a, w)

  abbrev pub raise : Error → Action A
  raise e w = (err e, w)

  abbrev pub or_raise : Option A → Error → Action A
  or_raise none e = raise e
  or_raise (some a) _ = pure a

  abbrev pub lift : Result A → Action A
  lift r w = (r, w)

  -- A read of the open transaction.
  abbrev pub query : (Db → A) → Action A
  query f w = (ok (f w.work), w)

  -- A call whose answer comes from outside.
  abbrev pub ask : (ℕ → A) → Action A
  ask f w = (ok (f w.calls), record w { calls = suc w.calls })

  -- A write in the open transaction that has a result, and one that may fail.
  abbrev pub write_with : (Db → A × Db) → Action A
  write_with f w = let (a, db) = f w.work in (ok a, record w { work = db })

  abbrev stored : Result (A × Db) → World → Result A × World
  stored (ok (a, db)) w = (ok a, record w { work = db })
  stored (err e) w = (err e, w)

  abbrev pub try_write : (Db → Result (A × Db)) → Action A
  try_write f w = stored (f w.work) w

  -- `async with self._uow as uow`: the block begins with what is committed, and what it has not
  -- committed when it ends, by a return or by a raise, is gone.
  abbrev pub transaction : Action A → Action A
  transaction m w = let (r, w') = m (record w { work = w.db }) in (r, record w' { work = w'.db })

infixl 5 ◌>>=◌ ◌>>◌
abbrev pub ◌>>=◌ : {A B : Type 0} → Action A → (A → Action B) → Action B
◌>>=◌ m f w = let (r, w') = m w in elim r [ ok a ↦ f a w' | err e ↦ (err e, w') ]

abbrev pub ◌>>◌ : {B : Type 0} → Action (Unit {0}) → Action B → Action B
m >> k = m >>= λ _. k

abbrev pub raise_if : Bool → Error → Action (Unit {0})
raise_if c e w = (if c then err e else ok tt, w)

abbrev pub write : (Db → Db) → Action (Unit {0})
write f w = (ok tt, record w { work = f w.work })

abbrev stored_only : Result Db → World → Result (Unit {0}) × World
stored_only (ok db) w = (ok tt, record w { work = db })
stored_only (err e) w = (err e, w)

abbrev pub try_write_only : (Db → Result Db) → Action (Unit {0})
try_write_only f w = stored_only (f w.work) w

-- `await uow.commit()`.
abbrev pub commit : Action (Unit {0})
commit w = (ok tt, record w { db = w.work })

-- `ICache.delete` and `ICache.set`.
abbrev pub cache_delete : String → Action (Unit {0})
cache_delete key w = (ok tt, record w { cache = uncache w.cache key })

abbrev pub cache_set : String → User → Action (Unit {0})
cache_set key user w = (ok tt, record w { cache = (key, user) ∷ uncache w.cache key })

-- `IEmailSender.send`.
abbrev pub send_email : EmailMessage → Action (Unit {0})
send_email message w = (ok tt, record w { outbox = w.outbox ++ message ∷ [] })
