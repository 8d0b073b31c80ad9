-- ===== src/Example/Start.antt =====
-- How the example program (go/example/main.go) makes its client: the required flags, the database, the
-- transport and `New`. The pool, the gRPC options and the connection are parameters.

use fx_sdk.Example.Tls.{
  Loaded, TlsConfig, TlsError, TlsFiles, load_tls_config, loaded, not_loaded, zero_config,
}
use fx_sdk.Example.Session.{Flags}
use fx_sdk.Errors.{Error, Result, err, ok}
use fx_sdk.Client.Config.{
  Client, ClientOption, new_client, with_dial_options, with_max_retries, with_retry_backoff,
  DialPart, attach, given, keepalive, retry_calls, stream_chain, unary_chain,
}
use fx_sdk.Common.{
  Bool, List, Option, Text, [], if◌then◌else◌, is_empty, length, none, not, pos, some, true, ◌||◌,
  ◌∷◌, ◌≡◌, ◌≢◌,
}

pub data Start (A : Type 0) : Type 0 where
  started : A → Start A
  flags_missing pool_failed : Start A
  tls_failed : TlsError → Start A
  client_failed : Error → Start A

unfoldable pub has_flags : Flags → Bool
has_flags f = not (
    is_empty f.sdk_id
    || is_empty f.api_key
    || is_empty f.dsn
    || is_empty f.client_id
    || is_empty f.client_inn)

-- `grpc.WithTransportCredentials` of plain text and of a TLS configuration, `pgxpool.New`, and the
-- connection that `New` makes
pub record Parts (Cert CertPool DialOption Conn Pool : Type 0) : Type 0 where
  pub files : TlsFiles Cert CertPool
  pub plaintext_option : DialOption
  pub tls_option : TlsConfig Cert CertPool → DialOption
  pub open_pool : Text → Option Pool
  pub dial : Text → List (DialPart DialOption) → Result Conn

module _ {Cert CertPool DialOption Conn Pool : Type 0}
    (parts : Parts Cert CertPool DialOption Conn Pool) where
  open parts use {dial, files, open_pool, plaintext_option, tls_option}

  abbrev dial_option_of : Loaded (TlsConfig Cert CertPool) → Loaded DialOption
  dial_option_of (loaded cfg) = loaded (tls_option cfg)
  dial_option_of (not_loaded e) = not_loaded e

  -- Plain text, the client's certificate, or the system's roots alone.
  unfoldable pub transport : Flags → Loaded DialOption
  unfolding load_tls_config
  transport f =
      if f.plaintext
      then loaded plaintext_option
      else if f.m_tls
      then dial_option_of (load_tls_config files f.tls_cert f.tls_key f.tls_ca)
      else loaded (tls_option zero_config)

  -- Three retries, from 100 milliseconds to 5 seconds apart.
  abbrev pub options : DialOption → List (ClientOption DialOption)
  options d =
      with_max_retries (pos 3)
      ∷ with_retry_backoff (pos 100000000) (pos 5000000000)
      ∷ with_dial_options (d ∷ [])
      ∷ []

  abbrev made : Result (Client Conn Pool) → Start (Client Conn Pool)
  made (ok c) = started c
  made (err e) = client_failed e

  abbrev with_transport : Flags → Pool → Loaded DialOption → Start (Client Conn Pool)
  with_transport f pool (not_loaded e) = tls_failed e
  with_transport f pool (loaded d) =
      made (new_client dial f.target f.sdk_id f.api_key f.partner_id (some pool) (options d))

  abbrev with_pool : Flags → Option Pool → Start (Client Conn Pool)
  with_pool f none = pool_failed
  with_pool f (some pool) = with_transport f pool (transport f)

  -- `main` up to the client
  unfoldable pub start : Flags → Start (Client Conn Pool)
  unfolding transport new_client has_flags
  start f = if has_flags f then with_pool f (open_pool f.dsn) else flags_missing

  -- The flags with which a client is made, and the client.
  pub record StartedOf (f : Flags) (client : Client Conn Pool) : Type 0 where
    pub flags_given : has_flags f ≡ true
    pub target_given : f.target ≢ []
    pub sdk_id_length : length f.sdk_id ≡ 36
    pub opened : open_pool f.dsn ≡ some client.db
    pub option : DialOption
    pub option_eq : transport f ≡ loaded option
    pub dialled :
        dial f.target (
          unary_chain (
            attach (record { key_id = f.sdk_id; api_key = f.api_key; partner_id = f.partner_id })
            ∷ retry_calls client.max_retries client.base_delay client.max_delay
            ∷ [])
          ∷ stream_chain (
              attach (record { key_id = f.sdk_id; api_key = f.api_key; partner_id = f.partner_id })
              ∷ [])
          ∷ keepalive (pos 30000000000) (pos 10000000000) true
          ∷ given option
          ∷ [])
        ≡ ok client.conn
    pub retries_eq : client.max_retries ≡ pos 3
    pub base_eq : client.base_delay ≡ pos 100000000
    pub max_eq : client.max_delay ≡ pos 5000000000
