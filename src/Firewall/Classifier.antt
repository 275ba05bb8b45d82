-- ===== src/Firewall/Classifier.antt =====
-- ACL_DPDK/main.c, which builds a rule set and classifies one packet.
use dpdk_folder.Prelude.{
  ℕ, ◌+◌, ℤ, pos, is_neg, is_zero, not, ◌==◌, if◌then◌else◌, List, [], ◌∷◌, ◌≡◌, refl, Bool-cases,
  inl, inr,
}
use dpdk_folder.Dpdk.{
  M, Driver, Trace, Outcome, done, int_of, word_of, did, ◌>>=◌, ◌>>◌, pure, return_if, return,
  function, ask_int, ask_word, run, eal_init, eal_cleanup, acl_create, acl_add_rules, acl_build,
  acl_free, acl_classify, value_of, trace_of, machine,
}

-- `pkt1`: an IPv4 header with the protocol and the source address set, and a TCP header with its ports.
abbrev pub pkt1 : List ℕ
pkt1 =
    0 ∷ 0 ∷ 0 ∷ 0 ∷ 0 ∷ 0 ∷ 0 ∷ 0 ∷ 0 ∷ 6 ∷ 0 ∷ 0 ∷ 192 ∷ 168 ∷ 1 ∷ 10 ∷ 0 ∷ 0 ∷ 0 ∷ 0 ∷ 4 ∷ 210 ∷ 0
    ∷ 80 ∷ 0 ∷ 0 ∷ 0 ∷ 0 ∷ 0 ∷ 0 ∷ 0 ∷ 0 ∷ 0 ∷ 0 ∷ 0 ∷ 0 ∷ 0 ∷ 0 ∷ 0 ∷ 0 ∷ []

unfoldable pub main : M ℤ
main = function do
  ret ← ask_int eal_init
  return_if (is_neg ret) (pos 1)
  acl_ctx ← ask_word (acl_create "ACL_PARAM" 10)
  if acl_ctx == 0 then (do ask_int eal_cleanup; return (pos 2)) else (do
    added ← ask_int (acl_add_rules acl_ctx 1)
    if not (is_zero added)
        then (do run (acl_free acl_ctx); ask_int eal_cleanup; return (pos 3))
        else (do
          built ← ask_int (acl_build acl_ctx)
          if not (is_zero built)
              then (do run (acl_free acl_ctx); ask_int eal_cleanup; return (pos 4))
              else (do
                ask_int (acl_classify acl_ctx pkt1)
                run (acl_free acl_ctx)
                ask_int eal_cleanup
                pure (pos 0))))

-- How often the EAL was initialised and cleaned up, and how often a context at this address was made
-- and freed.
abbrev pub initialised : Trace → ℕ
initialised [] = 0
initialised (int_of eal_init x ∷ h) = (if is_neg x then 0 else 1) + initialised h
initialised (_ ∷ h) = initialised h

abbrev pub cleaned_up : Trace → ℕ
cleaned_up [] = 0
cleaned_up (int_of eal_cleanup x ∷ h) = 1 + cleaned_up h
cleaned_up (_ ∷ h) = cleaned_up h

abbrev pub created : ℕ → Trace → ℕ
created c [] = 0
created c (word_of (acl_create _ _) p ∷ h) =
    (if p == 0 then 0 else if p == c then 1 else 0) + created c h
created c (_ ∷ h) = created c h

abbrev pub freed : ℕ → Trace → ℕ
freed c [] = 0
freed c (did (acl_free p) ∷ h) = (if p == c then 1 else 0) + freed c h
freed c (_ ∷ h) = freed c h

-- The process ends, and has given back what it got.
pub record IsClean (r : Outcome ℤ × Trace) : Type 0 where
  pub code : ℤ
  pub ends : value_of r ≡ done code
  pub eal : initialised (trace_of r) ≡ cleaned_up (trace_of r)
  pub contexts : (c : ℕ) → created c (trace_of r) ≡ freed c (trace_of r)

-- Whatever fails, main of ACL_DPDK/main.c returns, cleans the EAL up if it initialised it, and frees the
-- context that it made, once.
pub classifier_main-IsClean : (d : Driver) → IsClean (main d [])
unfolding main machine
classifier_main-IsClean d =
    let ret = d.int 0 eal_init in
    let acl_ctx = d.word 1 (acl_create "ACL_PARAM" 10) in
    let added = d.int 2 (acl_add_rules acl_ctx 1) in
    let built = d.int 3 (acl_build acl_ctx) in
    elim (Bool-cases (is_neg ret)) [
      | inl e ↦ rw e (record { code = pos 1; ends = refl; eal = rw e refl; contexts = λ c. refl })
      | inr e ↦ elim (Bool-cases (acl_ctx == 0)) [
        | inl e1 ↦
            rw (e, e1)
              (record { code = pos 2; ends = refl; eal = rw e refl; contexts = λ c. rw e1 refl })
        | inr e1 ↦ elim (Bool-cases (not (is_zero added))) [
          | inl e2 ↦
              rw (e, e1, e2)
                (record { code = pos 3; ends = refl; eal = rw e refl; contexts = λ c. rw e1 refl })
          | inr e2 ↦ elim (Bool-cases (not (is_zero built))) [
            | inl e3 ↦
                rw (e, e1, e2, e3)
                  (record {
                    code = pos 4;
                    ends = refl;
                    eal = rw e refl;
                    contexts = λ c. rw e1 refl;
                  })
            | inr e3 ↦
                rw (e, e1, e2, e3)
                  (record {
                    code = pos 0;
                    ends = refl;
                    eal = rw e refl;
                    contexts = λ c. rw e1 refl;
                  })
          ]
        ]
      ]
    ]
