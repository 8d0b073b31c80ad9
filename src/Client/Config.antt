-- ===== src/Client/Config.antt =====
-- `New` of go/v1/client.go with its options: what a client is made of. The connection and the
-- generated service clients on it are parameters.

use fx_sdk.Errors.{
  Result, api_key_required, db_required, err, guard, ok, sdk_id_invalid, target_required, ◌>>◌,
  ◌>>=◌,
}
use fx_sdk.Common.{
  List, Option, Text, [], arith, is_empty, is_empty_iff, length, none, not, pos, some, ℤ, ◌++◌,
  ◌==◌, ◌↔◌, ◌∷◌, ◌≡◌, ◌≢◌, Bool, map, true,
}

-- Durations are in nanoseconds. The gRPC options of `WithDialOptions` are a type of the caller's.
pub record Config (DialOption : Type 0) : Type 0 where
  pub max_retries : ℤ
  pub base_delay : ℤ
  pub max_delay : ℤ
  pub dial_opts : List DialOption

pub record Metadata : Type 0 where
  pub key_id : Text
  pub api_key : Text
  pub partner_id : Text

-- What the calls of a connection pass through: `authUnaryInterceptor` and `authStreamInterceptor`, which
-- attach the metadata to the context, and the retries with their limit and delays.
pub data Interceptor : Type 0 where
  attach : Metadata → Interceptor
  retry_calls : ℤ → ℤ → ℤ → Interceptor

-- The options of a connection: the chains of interceptors, the outermost first, the keepalive with its
-- time, its timeout and whether it holds without a stream, and those that the caller gives.
pub data DialPart (DialOption : Type 0) : Type 0 where
  unary_chain stream_chain : List Interceptor → DialPart DialOption
  keepalive : ℤ → ℤ → Bool → DialPart DialOption
  given : DialOption → DialPart DialOption

pub record Client (Conn Pool : Type 0) : Type 0 where
  pub conn : Conn
  pub db : Pool
  pub max_retries : ℤ
  pub base_delay : ℤ
  pub max_delay : ℤ

-- `Close`, with the connection's own
abbrev pub close_client :
    {Conn Pool : Type 0} → (Conn → Result (Unit {0})) → Client Conn Pool → Result (Unit {0})
close_client close_conn c = close_conn c.conn

-- `type Option func(*config)`
abbrev pub ClientOption : Type 0 → Type 0
ClientOption D = Config D → Config D

module _ {DialOption : Type 0} where
  -- `WithMaxRetries`
  abbrev pub with_max_retries : ℤ → ClientOption DialOption
  with_max_retries n c = record c { max_retries = n }

  -- `WithRetryBackoff`
  abbrev pub with_retry_backoff : ℤ → ℤ → ClientOption DialOption
  with_retry_backoff base max c = record c { base_delay = base; max_delay = max }

  -- `WithDialOptions`
  abbrev pub with_dial_options : List DialOption → ClientOption DialOption
  with_dial_options opts c = record c { dial_opts = c.dial_opts ++ opts }

  -- 3 retries, 100 milliseconds, 5 seconds
  abbrev pub defaults : Config DialOption
  defaults = record {
    max_retries = pos 3;
    base_delay = pos 100000000;
    max_delay = pos 5000000000;
    dial_opts = [];
  }

  -- `for _, o := range opts { o(&cfg) }`
  unfoldable pub apply_options :
      List (ClientOption DialOption) → Config DialOption → Config DialOption
  apply_options [] c = c
  apply_options (o ∷ os) c = apply_options os (o c)

  -- `dialOpts`: the caller's options come last.
  abbrev pub dial_parts : Metadata → Config DialOption → List (DialPart DialOption)
  dial_parts md c =
      unary_chain (attach md ∷ retry_calls c.max_retries c.base_delay c.max_delay ∷ [])
      ∷ stream_chain (attach md ∷ [])
      ∷ keepalive (pos 30000000000) (pos 10000000000) true
      ∷ map given c.dial_opts

  -- `grpc.NewClient` is the parameter.
  module _ {Conn Pool : Type 0} (dial : Text → List (DialPart DialOption) → Result Conn) where
    abbrev client_of : Config DialOption → Pool → Result Conn → Result (Client Conn Pool)
    client_of c db (err e) = err e
    client_of c db (ok conn) = ok (record {
      conn = conn;
      db = db;
      max_retries = c.max_retries;
      base_delay = c.base_delay;
      max_delay = c.max_delay;
    })

    abbrev required_db : Option Pool → Result Pool
    required_db none = err db_required
    required_db (some db) = ok db

    -- `New`
    unfoldable pub new_client :
        Text
        → Text
        → Text
        → Text
        → Option Pool
        → List (ClientOption DialOption)
        → Result (Client Conn Pool)
    unfolding apply_options
    new_client target sdk_id api_key partner_id pool opts = do
      guard (not (is_empty target)) target_required
      guard (length sdk_id == 36) sdk_id_invalid
      guard (not (is_empty api_key)) api_key_required
      db ← required_db pool
      let c = apply_options opts defaults
      client_of c db (
          dial target
            (dial_parts (record { key_id = sdk_id; api_key = api_key; partner_id = partner_id }) c))

    -- The arguments with which a client is made, and the client.
    pub record MadeOf (target sdk_id api_key partner_id : Text) (pool : Option Pool)
        (opts : List (ClientOption DialOption)) (client : Client Conn Pool) : Type 0 where
      pub target_given : target ≢ []
      pub sdk_id_length : length sdk_id ≡ 36
      pub key_given : api_key ≢ []
      pub pool_eq : pool ≡ some client.db
      pub dialled :
          dial target (
            unary_chain (
              attach (record { key_id = sdk_id; api_key = api_key; partner_id = partner_id })
              ∷ retry_calls client.max_retries client.base_delay client.max_delay
              ∷ [])
            ∷ stream_chain (
                attach (record { key_id = sdk_id; api_key = api_key; partner_id = partner_id })
                ∷ [])
            ∷ keepalive (pos 30000000000) (pos 10000000000) true
            ∷ map given (apply_options opts defaults).dial_opts)
          ≡ ok client.conn
      pub retries_eq : client.max_retries ≡ (apply_options opts defaults).max_retries
      pub base_eq : client.base_delay ≡ (apply_options opts defaults).base_delay
      pub max_eq : client.max_delay ≡ (apply_options opts defaults).max_delay

    -- A client is made exactly of a target, an SDK id of 36 bytes, a key and a database, if the connection
    -- is. The connection has the options that attach the metadata to every call and every stream, outside
    -- of the retries of the calls, that keep the streams alive with a ping after 30 seconds and a timeout
    -- of 10, and last those of the caller. The client has that connection and that database, and the
    -- reconnect policy of its streams is the one that the calls are retried with, as the options leave it.
    pub new_client-MadeOf :
        (target sdk_id api_key partner_id : Text) (pool : Option Pool)
        (opts : List (ClientOption DialOption)) (client : Client Conn Pool)
        → (new_client target sdk_id api_key partner_id pool opts ≡ ok client)
          ↔ MadeOf target sdk_id api_key partner_id pool opts client
    unfolding new_client
    new_client-MadeOf target sdk_id api_key partner_id pool opts client = (forward, backward)
      where
        forward :
            new_client target sdk_id api_key partner_id pool opts ≡ ok client
            → MadeOf target sdk_id api_key partner_id pool opts client
        forward h = ground (arith, is_empty_iff target, is_empty_iff api_key)

        backward :
            MadeOf target sdk_id api_key partner_id pool opts client
            → new_client target sdk_id api_key partner_id pool opts ≡ ok client
        backward h = ground (arith, h, is_empty_iff target, is_empty_iff api_key)
