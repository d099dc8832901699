-- ===== src/HostAgent/Image/Verified.antt =====
-- What is known of an image that `_verified_image` returns.
use wolt.Prelude.{
  String, ◌≡◌, inl, inr, true, Option, none, some, ◌∷◌, arith, Option-cases, Bool-cases,
}
use wolt.Errors.{ok}
use wolt.HostAgent.{AgentConfig, Agent, Machine, run}
use wolt.HostAgent.Image.{
  digest_in, digest_of, is_digest, digest_text, verify_command, tagged_image, pinned_image,
  verified_image,
}
use wolt.Json.{Json, text, null, boolean, number, array, object}

digest_text-is_digest : (o : Option Json) (s : String) → digest_text o ≡ some s → is_digest s ≡ true
digest_text-is_digest none s h = absurd (ground arith)
digest_text-is_digest (some null) s h = absurd (ground arith)
digest_text-is_digest (some (boolean b)) s h = absurd (ground arith)
digest_text-is_digest (some (number n)) s h = absurd (ground arith)
digest_text-is_digest (some (array i)) s h = absurd (ground arith)
digest_text-is_digest (some (object f)) s h = absurd (ground arith)
digest_text-is_digest (some (text t)) s h = ground (arith, Bool-cases (is_digest t))

digest_of-is_digest : (o : Option Json) (s : String) → digest_of o ≡ some s → is_digest s ≡ true
unfolding digest_of
digest_of-is_digest o s h = digest_text-is_digest (digest_in o) s h

-- An image that `_verified_image` returns is the repository's image with the digest that cosign
-- printed when it verified the tag of this version with success, with the configured identity and
-- issuer; the digest has the form of a SHA-256 digest, and cosign's run is all that has been done.
pub verified_image-ok :
    (config : AgentConfig) (host : Machine) (version image : String) (a b : Agent)
    → verified_image config host version a ≡ (ok image, b)
    → (output : String) × (digest : String) × (host.answer a.done
          (verify_command config (tagged_image config version))
        ≡ some output)
      × (digest_of (host.parse_json output) ≡ some digest)
      × (is_digest digest ≡ true)
      × (image ≡ pinned_image config digest)
      × (b ≡ record a { done = verify_command config (tagged_image config version) ∷ a.done })
unfolding verified_image run
verified_image-ok config host version image a b h =
    let c = verify_command config (tagged_image config version) in
    elim (Bool-cases (host.present config.cosign_binary)) [
      | inr gone ↦ absurd (ground arith)
      | inl there ↦ elim (Option-cases (host.answer a.done c)) [
        | inl failed ↦ absurd (ground arith)
        | inr (output, e) ↦ elim (Option-cases (digest_of (host.parse_json output))) [
          | inl bad ↦ absurd (ground arith)
          | inr (digest, d) ↦ (
            output,
            digest,
            e,
            d,
            digest_of-is_digest (host.parse_json output) digest d,
            ground arith,
            ground arith,
          )
        ]
      ]
    ]
