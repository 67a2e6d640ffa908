-- ===== src/Dns/Refused.antt =====
-- A response that carries an error.
use node_identity_architetur.Base.{
  ℕ, ◌+◌, ◌*◌, ◌≡◌, refl, false, List, [], ◌∷◌, ◌++◌, ◌==◌, bit_and,
}
use node_identity_architetur.Dns.Question.{Holds, read_name}
use node_identity_architetur.Dns.{analyse_dns_response}
use node_identity_architetur.Memory.Splice.{load_within, zeros}
use node_identity_architetur.Memory.{Buffer, copy_from, fill, htons, load16}
use node_identity_architetur.Nid.{CString}
use node_identity_architetur.Run.{ok, ◌>>=◌}

module _ (a b f₁ f₂ : ℕ) (more : List ℕ) (name : CString) (type' : ℕ) (rest : List ℕ) (buf : Buffer)
    (holds : Holds a b (f₁ ∷ f₂ ∷ more) name type' rest buf) where
  pub read-flags : load16 2 buf ≡ ok (f₁ * 256 + f₂)
  unfolding load16
  read-flags =
      let piece : copy_from 2 2 buf ≡ ok (f₁ ∷ f₂ ∷ []) =
        load_within (a ∷ b ∷ []) (f₁ ∷ f₂ ∷ []) (more ++ (name ++ 0 ∷ (htons type' ++ rest))) buf 2
          holds.shape refl 2 refl in
      rw piece

  pub analyse_refused :
      (bit_and (f₁ * 256 + f₂) 15 == 0) ≡ false
      → analyse_dns_response buf
        ≡ ok (record {
          accepted = false;
          query_name = name;
          answer_ans = zeros 256;
          ns_ns = zeros 256;
        })
  unfolding analyse_dns_response fill
  analyse_refused refused =
      rw (read_name a b (f₁ ∷ f₂ ∷ more) name type' rest buf holds, ◌>>=◌, read-flags, refused)
