-- ===== src/Update/Laws.antt =====
-- UpdateController::accountManagerReady: the host and the port in the answer of the account.
use Prim.Native.Char.{code}
use Prim.Native.String.{[], ◌∷◌}
use mathlib.Core.List.{List, [], ◌∷◌}
use text.Mathlib.TextLemmas.{cons-append, nil-append}
use mediaupdater.Base.{
  ◌≡◌, refl, ap, ◌∙◌, String, ◌<>◌, if_false, if_true, nat_eq, ◌==◌, true, false,
}
use mediaupdater.Base.Int.{pos}
use mediaupdater.Qt.{Qt}
use mediaupdater.Station.{Station}
use mediaupdater.Account.{Codec}
use mediaupdater.Update.{host_port, second_field}
use mediaupdater.Base.Text.{has_char, split, split_field, split_plain, before_field, has_char_field}

colon-append : (s : String) → ":" <> s ≡ ":" ∷ s
colon-append s = cons-append ":" [] s ∙ ap (λ t. ":" ∷ t) (nil-append s)

is_colon : code ":" == b':' ≡ true
unfolding nat_eq
is_colon = refl

module _ (Q : Qt) (st : Station) (C : Codec) where
  host_port_colon :
      (host rest port : String) (fields : List String)
      → has_char b':' host ≡ false
      → split b':' rest ≡ port ∷ fields
      → host_port Q st C (host <> (":" <> rest)) ≡ (host, Q.parse_int port)
  unfolding host_port second_field
  host_port_colon host rest port fields h e =
      ap (λ t. host_port Q st C (host <> t)) (colon-append rest)
      ∙ if_true (has_char b':' (host <> (":" ∷ rest))) _ _
          (has_char_field b':' host ":" rest is_colon)
      ∙ rw
          (before_field b':' host ":" rest h is_colon, split_field b':' host ":" rest h is_colon, e)
          refl

  -- For a host and a port without colons: the host alone stands for itself, with port 0; in a text with
  -- a colon between the two they are the host and its port, whatever follows a second colon.
  host_port_fields :
      (host port rest : String)
      → has_char b':' host ≡ false
      → has_char b':' port ≡ false
      → (host_port Q st C host ≡ (host, pos 0))
        × (host_port Q st C (host <> (":" <> port)) ≡ (host, Q.parse_int port))
        × (host_port Q st C (host <> (":" <> (port <> (":" <> rest)))) ≡ (host, Q.parse_int port))
  unfolding host_port second_field
  host_port_fields host port rest h p =
      let later : String = port <> (":" <> rest) in
      (
        if_false (has_char b':' host) _ _ h,
        host_port_colon host port port [] h (split_plain b':' port p),
        host_port_colon host later port (split b':' rest) h (
            ap (λ t. split b':' (port <> t)) (colon-append rest)
            ∙ split_field b':' port ":" rest p is_colon),
      )
