-- ===== src/Command/Http2.antt =====
-- The TLS configurations of the servers.
use vcluster_rancher_operato.Prelude.{
  ◌≡◌, refl, Bool, Option, none, some, List, [], ◌∷◌, if◌then◌else◌, Bool-cases, inl, inr,
}
use vcluster_rancher_operato.Command.{
  Flags, TlsConfig, TlsOpt, apply_opt, server_tls_opts, manager_options,
}

-- A server applies the options that it is given in their order.
unfoldable pub apply_opts :
    {CertWatcher : Type 0}
    → List (TlsOpt CertWatcher)
    → TlsConfig CertWatcher
    → TlsConfig CertWatcher
apply_opts [] c = c
apply_opts (opt ∷ opts) c = apply_opts opts (apply_opt opt c)

-- What a server's configuration becomes.
abbrev pub configured :
    {CertWatcher : Type 0}
    → Bool
    → Option CertWatcher
    → TlsConfig CertWatcher
    → TlsConfig CertWatcher
configured enable_http2 none c = record c {
  next_protos = if enable_http2 then c.next_protos else "http/1.1" ∷ [];
}
configured enable_http2 (some watcher) c = record {
  next_protos = if enable_http2 then c.next_protos else "http/1.1" ∷ [];
  get_certificate = some watcher;
}

apply-server_tls_opts :
    {CertWatcher : Type 0} (flags : Flags) (watcher : Option CertWatcher)
    (c : TlsConfig CertWatcher)
    → apply_opts (server_tls_opts flags watcher) c ≡ configured flags.enable_http2 watcher c
unfolding apply_opts server_tls_opts apply_opt
apply-server_tls_opts flags none c = elim (Bool-cases flags.enable_http2) [
  | inl on ↦ rw (on, server_tls_opts) refl
  | inr off ↦ rw (off, server_tls_opts) refl
]
apply-server_tls_opts flags (some watcher) c = elim (Bool-cases flags.enable_http2) [
  | inl on ↦ rw (on, server_tls_opts) refl
  | inr off ↦ rw (off, server_tls_opts) refl
]

-- The manager gives each of its two servers options that, applied in their order, make HTTP/1.1
-- its only protocol, unless HTTP/2 is enabled by the flag, that serve the certificate of its own
-- watcher, if it has one, and that leave the rest of any configuration as it was.
pub apply-manager_options :
    {CertWatcher : Type 0} (flags : Flags)
    (webhook_cert_watcher metrics_cert_watcher : Option CertWatcher) (c : TlsConfig CertWatcher)
    → let options = manager_options flags webhook_cert_watcher metrics_cert_watcher in
      (apply_opts options.webhook_tls_opts c ≡ configured flags.enable_http2 webhook_cert_watcher c)
      × (apply_opts options.metrics_tls_opts c
          ≡ configured flags.enable_http2 metrics_cert_watcher c)
unfolding manager_options
apply-manager_options flags webhook_cert_watcher metrics_cert_watcher c = (
  apply-server_tls_opts flags webhook_cert_watcher c,
  apply-server_tls_opts flags metrics_cert_watcher c,
)
