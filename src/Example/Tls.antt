-- ===== src/Example/Tls.antt =====
-- `loadTLSConfig` of the example program (go/example/main.go): the client's certificate and the roots that
-- the server's is checked against. The certificates and the files are parameters.

use fx_sdk.Common.{
  List, Option, Text, [], arith, if◌then◌else◌, is_empty, is_empty_iff, none, not, some, ℕ, ◌&&◌,
  ◌||◌, ◌↔◌, ◌∷◌, ◌≡◌, ◌≢◌, ◌⊎◌,
}

pub data TlsError : Type 0 where
  key_pair_unreadable key_pair_incomplete ca_unreadable ca_empty : TlsError

-- The fields of `tls.Config` that the program sets.
pub record TlsConfig (Cert CertPool : Type 0) : Type 0 where
  pub min_version : ℕ
  pub certificates : List Cert
  pub root_cas : Option CertPool

-- `&tls.Config{}`
abbrev pub zero_config : {Cert CertPool : Type 0} → TlsConfig Cert CertPool
zero_config = record { min_version = 0; certificates = []; root_cas = none }

-- `tls.VersionTLS12`
abbrev pub version_tls12 : ℕ
version_tls12 = 771

pub data Loaded (A : Type 0) : Type 0 where
  loaded : A → Loaded A
  not_loaded : TlsError → Loaded A

-- `tls.LoadX509KeyPair`, `os.ReadFile`, and the pool that `AppendCertsFromPEM` makes of an empty one, if it
-- finds a certificate
pub record TlsFiles (Cert CertPool : Type 0) : Type 0 where
  pub load_key_pair : Text → Text → Option Cert
  pub read_file : Text → Option Text
  pub pool_of_pem : Text → Option CertPool

module _ {Cert CertPool : Type 0} (files : TlsFiles Cert CertPool) where
  open files use {load_key_pair, pool_of_pem, read_file}

  abbrev with_pair : TlsConfig Cert CertPool → Option Cert → Loaded (TlsConfig Cert CertPool)
  with_pair cfg none = not_loaded key_pair_unreadable
  with_pair cfg (some cert) = loaded (record cfg { certificates = cert ∷ [] })

  -- The first switch
  unfoldable load_pair : Text → Text → TlsConfig Cert CertPool → Loaded (TlsConfig Cert CertPool)
  load_pair cert_file key_file cfg =
      if not (is_empty cert_file) && not (is_empty key_file)
      then with_pair cfg (load_key_pair cert_file key_file)
      else if not (is_empty cert_file) || not (is_empty key_file)
      then not_loaded key_pair_incomplete
      else loaded cfg

  abbrev with_pool : TlsConfig Cert CertPool → Option CertPool → Loaded (TlsConfig Cert CertPool)
  with_pool cfg none = not_loaded ca_empty
  with_pool cfg (some pool) = loaded (record cfg { root_cas = some pool })

  abbrev with_pem : TlsConfig Cert CertPool → Option Text → Loaded (TlsConfig Cert CertPool)
  with_pem cfg none = not_loaded ca_unreadable
  with_pem cfg (some pem) = with_pool cfg (pool_of_pem pem)

  unfoldable load_roots : Text → TlsConfig Cert CertPool → Loaded (TlsConfig Cert CertPool)
  load_roots ca_file cfg = if is_empty ca_file then loaded cfg else with_pem cfg (read_file ca_file)

  abbrev after_pair : Text → Loaded (TlsConfig Cert CertPool) → Loaded (TlsConfig Cert CertPool)
  after_pair ca_file (not_loaded e) = not_loaded e
  after_pair ca_file (loaded cfg) = load_roots ca_file cfg

  -- `loadTLSConfig`
  unfoldable pub load_tls_config : Text → Text → Text → Loaded (TlsConfig Cert CertPool)
  unfolding load_pair load_roots
  load_tls_config cert_file key_file ca_file =
      after_pair ca_file
        (load_pair cert_file key_file (record zero_config { min_version = version_tls12 }))

  -- The certificates that two file names stand for.
  pub Pair : Text → Text → List Cert → Type 0
  Pair cert_file key_file certs =
      ((cert_file ≡ []) × (key_file ≡ []) × (certs ≡ []))
      ⊎ ((cert_file ≢ [])
          × (key_file ≢ [])
          × (cert : Cert) × (load_key_pair cert_file key_file ≡ some cert)
          × (certs ≡ cert ∷ []))

  -- The roots that a file name stands for; without one they are left to the system.
  pub Roots : Text → Option CertPool → Type 0
  Roots ca_file roots =
      ((ca_file ≡ []) × (roots ≡ none))
      ⊎ ((ca_file ≢ [])
          × (pem : Text) × (read_file ca_file ≡ some pem)
          × (pool : CertPool) × (pool_of_pem pem ≡ some pool)
          × (roots ≡ some pool))

  pub record TlsOf (cert_file key_file ca_file : Text) (cfg : TlsConfig Cert CertPool)
      : Type 0 where
    pub version_eq : cfg.min_version ≡ version_tls12
    pub pair : Pair cert_file key_file cfg.certificates
    pub roots : Roots ca_file cfg.root_cas

  -- A configuration is loaded exactly of no key pair or of a whole one that can be read, and of no file of
  -- roots or of one that can be read and has a certificate; it requires TLS 1.2, presents the certificate
  -- of the pair, and checks the server against these roots, or against those of the system.
  pub load_tls_config-TlsOf :
      (cert_file key_file ca_file : Text) (cfg : TlsConfig Cert CertPool)
      → (load_tls_config cert_file key_file ca_file ≡ loaded cfg)
        ↔ TlsOf cert_file key_file ca_file cfg
  unfolding load_tls_config Pair Roots load_pair load_roots
  load_tls_config-TlsOf cert_file key_file ca_file cfg = (forward, backward)
    where
      forward :
          load_tls_config cert_file key_file ca_file ≡ loaded cfg
          → TlsOf cert_file key_file ca_file cfg
      forward h =
          ground (arith, is_empty_iff cert_file, is_empty_iff key_file, is_empty_iff ca_file)

      backward :
          TlsOf cert_file key_file ca_file cfg
          → load_tls_config cert_file key_file ca_file ≡ loaded cfg
      backward h =
          ground (arith, h, is_empty_iff cert_file, is_empty_iff key_file, is_empty_iff ca_file)
