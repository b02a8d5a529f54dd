-- ===== src/Ota/Quarantine.antt =====
-- What an earlier attempt in the state file forbids to `deploy` of the controller.
use dm_d5102q_rs485_bridge.Prelude.{
  arith, ◌≤◌, String, ◌∙◌, ◌⊎◌, inl, inr, Bool-cases, ◌≡◌, refl, Text, text, true, false, Option,
  some,
}
use dm_d5102q_rs485_bridge.Value.{Value, Fields, str, obj, field_eq}
use dm_d5102q_rs485_bridge.Exec.{Err, ok, err}
use dm_d5102q_rs485_bridge.Exec.Action.{raise, lift, gets, resume, ◌>>=◌}
use dm_d5102q_rs485_bridge.Ota.World.{World}
use dm_d5102q_rs485_bridge.Ota.Client.{Client}
use dm_d5102q_rs485_bridge.Ota.Deploy.{Release, Setting, load_prior, one_of, deploy, deploy_prior}
use dm_d5102q_rs485_bridge.Ota.Trace.{AtMost-raise, AtMost-if, AtMost, same_path, sends}
use dm_d5102q_rs485_bridge.Ota.Attempts.{resume_prior-AtMost}

-- The state file holds this object.
abbrev pub Holds : World → Fields → Type 0
Holds w d = w.saved ≡ some (record { owner_only = true; content = some (obj d) })

module _ (sha256 : Text → Text) (json_loads : Text → Option Value) (c : Client)
    (release : Release) where
  prior_quarantined :
      (prior : Fields) (w : World)
      → one_of prior (text "status") (text "FAILED") (text "UNKNOWN") ≡ true
      → (e : Err) × (deploy_prior sha256 json_loads c release prior w ≡ (err e, w))
  unfolding deploy_prior raise
  prior_quarantined prior w h = rw h (_, refl)

  loaded : (w : World) (prior : Fields) → Holds w prior → load_prior w.saved ≡ ok prior
  unfolding load_prior
  loaded w prior saved = rw saved refl

  -- The setting refuses the call, or the prior attempt decides.
  refused_or_prior :
      (setting : Setting) (w : World) (prior : Fields)
      → Holds w prior
      → ((e : Err) × (deploy sha256 json_loads setting c release w ≡ (err e, w)))
        ⊎ (deploy sha256 json_loads setting c release w
            ≡ deploy_prior sha256 json_loads c release prior w)
  unfolding deploy ◌>>=◌ resume lift gets
  refused_or_prior setting w prior saved = elim (Bool-cases setting.directory_private) [
    | inr shared ↦ inl (rw shared (_, refl))
    | inl private ↦ elim (Bool-cases setting.lock_free) [
      | inr taken ↦ inl (rw (private, taken) (_, refl))
      | inl free ↦ inr (rw (private, free, loaded w prior saved) refl)
    ]
  ]

  -- Where the last attempt has failed or is unknown, `deploy` fails, sends nothing and writes
  -- nothing.
  pub deploy_quarantined :
      (setting : Setting) (w : World) (prior : Fields)
      → Holds w prior
      → one_of prior (text "status") (text "FAILED") (text "UNKNOWN") ≡ true
      → (e : Err) × (deploy sha256 json_loads setting c release w ≡ (err e, w))
  deploy_quarantined setting w prior saved h =
      let closed = prior_quarantined prior w h in
      elim (refused_or_prior setting w prior saved) [
        | inl out ↦ out
        | inr eq ↦ (closed.0, eq ∙ closed.1)
      ]

  module _ (path : String) (auth : same_path "/api/v1/auth" path ≡ false)
      (look : same_path "/api/v1/ota/status" path ≡ false)
      (commit : same_path "/api/v1/ota/confirm" path ≡ false) where
    open_prior-AtMost :
        (prior : Fields)
        → field_eq prior (text "status") (str (text "IN_PROGRESS")) ≡ true
        → AtMost path 0 (deploy_prior sha256 json_loads c release prior)
    unfolding deploy_prior
    open_prior-AtMost prior h =
        AtMost-if path 0 (one_of prior (text "status") (text "FAILED") (text "UNKNOWN")) (raise _) _
          (AtMost-raise path _)
          (rw h (resume_prior-AtMost sha256 json_loads path auth look commit c release prior))

    resumed :
        (setting : Setting) (w : World) (prior : Fields)
        → Holds w prior
        → field_eq prior (text "status") (str (text "IN_PROGRESS")) ≡ true
        → sends path (deploy sha256 json_loads setting c release w).1.trace ≤ sends path w.trace
    resumed setting w prior saved h =
        let bound = (open_prior-AtMost prior h).at w in
        elim (refused_or_prior setting w prior saved) [
          | inl out ↦ rw out.1 (omega arith)
          | inr eq ↦ rw eq (omega arith)
        ]

  -- Where the last attempt is still open, `deploy` sends neither an image nor a request to prepare
  -- for one.
  pub deploy_resumes_without_upload :
      (setting : Setting) (w : World) (prior : Fields)
      → Holds w prior
      → field_eq prior (text "status") (str (text "IN_PROGRESS")) ≡ true
      → (sends "/api/v1/ota/upload" (deploy sha256 json_loads setting c release w).1.trace
          ≤ sends "/api/v1/ota/upload" w.trace)
        × (sends "/api/v1/ota/prepare" (deploy sha256 json_loads setting c release w).1.trace
            ≤ sends "/api/v1/ota/prepare" w.trace)
  deploy_resumes_without_upload setting w prior saved h = (
    resumed "/api/v1/ota/upload" refl refl refl setting w prior saved h,
    resumed "/api/v1/ota/prepare" refl refl refl setting w prior saved h,
  )
