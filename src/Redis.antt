-- ===== src/Redis.antt =====
-- What the program uses of a redis server through its client: the commands, and what is documented
-- of them. A command returns its reply or an error, beside the state it leaves.
pub mod Laws
pub mod Memory
pub mod Serves
use traefik_kop.Prelude.{ℕ, Bool, true, false, Option, none, some, List}
use traefik_kop.Prelude.Result.{Result}
use traefik_kop.Text.{Str}

pub data Content : Type 0 where
  text : Str → Content
  members : List Str → Content

-- What a key holds, and how long it lives on: a `ttl` of 0 is no expiry.
pub record Item : Type 0 where
  pub content : Content
  pub ttl : ℕ

pub record Redis : Type 1 where
  pub State : Type 0
  -- what a key holds now
  pub view : State → Str → Option Item
  -- whether a key matches a pattern of KEYS
  pub glob : Str → Str → Bool
  pub ping : State → Result (Unit {0}) × State
  -- the reply to a missing key is `none`
  pub get : Str → State → Result (Option Str) × State
  pub keys : Str → State → Result (List Str) × State
  pub set : Str → Str → ℕ → State → Result (Unit {0}) × State
  pub exists : Str → State → Result Bool × State
  pub unlink : List Str → State → Result (Unit {0}) × State
  pub sadd : Str → List Str → State → Result (Unit {0}) × State
  pub smembers : Str → State → Result (List Str) × State
  pub sdiff : Str → Str → State → Result (List Str) × State
  pub rename : Str → Str → State → Result (Unit {0}) × State
  -- a pipeline of PEXPIRE commands, one for each key
  pub pexpire : List Str → ℕ → State → Result (List Bool) × State
