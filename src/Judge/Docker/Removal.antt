-- ===== src/Judge/Docker/Removal.antt =====
-- The container of a session is not forgotten before the client has reported that it is removed.
use online_coding_judge.Prelude.{
  ℕ, ◌*◌, Bool, true, false, not, List, [], ◌∷◌, Bytes, text, bytes_eq, bytes_eq_refl, Option, none,
  some, ◌≡◌, refl, subst, ◌⊎◌, inl, inr, arith, ◌&&◌, if◌then◌else◌, Bool-cases, Option-cases,
}
use online_coding_judge.Errors.{Reply, ok, err, Reply-cases}
use online_coding_judge.Database.Table.{exists}
use online_coding_judge.Judge.Types.{Outcome}
use online_coding_judge.Judge.Engine.{rejects}
use online_coding_judge.Judge.Retry.{second}
use online_coding_judge.Judge.Docker.Host.{Host, control, control_reply}
use online_coding_judge.Judge.Docker.Container.{Container, close}
use online_coding_judge.Judge.Docker.Execute.{execute}
use online_coding_judge.Judge.Docker.Session.{
  DockerSandbox, build, compiled, retire, compiler, compile_in, compile_with, compile_sandbox,
  run_sandbox, close_with, close_sandbox,
}
use online_coding_judge.Judge.Docker.Upkeep.{
  Upholds, close_keeps, build_keeps, execute_keeps, run_keeps,
}
use online_coding_judge.Judge.Docker.Pending.{tracked}
use online_coding_judge.Judge.Docker.Cleanup.{compiler_of}

-- The containers that the client has reported to be removed.
unfoldable pub after_report : List Bytes → Bool → List Bytes → List Bytes
after_report (c ∷ flag ∷ n ∷ []) failed gone =
    if bytes_eq c (text "rm") && not failed then n ∷ gone else gone
after_report args failed gone = gone

-- The host, and beside it the containers that are reported to be removed.
abbrev pub noted : {W : Type 0} → Host W → Host (W × List Bytes)
noted host = record {
  docker = λ cancelled input args (w, gone).
      let (r, w') = host.docker cancelled input args w in (r, (w', after_report args r.1 gone));
  launch = λ cancelled input args (w, gone).
      let (p, w') = host.launch cancelled input args w in (p, (w', gone));
  now = λ (w, gone). host.now w;
  read_file = λ path (w, gone). let (r, w') = host.read_file path w in (r, (w', gone));
  random = λ n (w, gone). let (r, w') = host.random n w in (r, (w', gone));
  tar = host.tar;
  untar = host.untar;
}

abbrev pub is_gone : Bytes → List Bytes → Bool
is_gone n gone = exists (λ x. bytes_eq n x) gone

after_report_keeps :
    (n : Bytes) (args : List Bytes) (failed : Bool) (gone : List Bytes)
    → is_gone n gone ≡ true
    → is_gone n (after_report args failed gone) ≡ true
unfolding after_report exists
after_report_keeps n [] failed gone h = h
after_report_keeps n (a ∷ []) failed gone h = h
after_report_keeps n (a ∷ b ∷ []) failed gone h = h
after_report_keeps n (a ∷ b ∷ c ∷ []) failed gone h = ground (arith, h)
after_report_keeps n (a ∷ b ∷ c ∷ d ∷ args) failed gone h = h

module _ {W : Type 0} (host : Host W) where
  abbrev pub m : Host ((W × List Bytes) × List Bytes)
  m = tracked (noted host)

  abbrev pub Gone : Bytes → (W × List Bytes) × List Bytes → Type 0
  Gone n s = is_gone n s.0.1 ≡ true

  noted-Upholds : (n : Bytes) → Upholds m (Gone n)
  noted-Upholds n = record {
    docker = λ cancelled input args s h. after_report_keeps n args _ s.0.1 h;
    launch = λ cancelled input args s h. h;
    read_file = λ path s h. h;
    random = λ k s h. h;
  }

  -- A `close` without an error has the removal reported.
  reply_ok :
      (limit : ℕ) (r : List (Bool × Bytes) × Bool) (out : Bytes)
      → control_reply limit r.0 r.1 ≡ ok out
      → r.1 ≡ false
  unfolding control_reply
  reply_ok limit (chunks, true) out e = absurd (ground (arith, e))
  reply_ok limit (chunks, false) out e = refl

  reported :
      (n : Bytes) (failed : Bool) (gone : List Bytes)
      → failed ≡ false
      → is_gone n (after_report (text "rm" ∷ text "-f" ∷ n ∷ []) failed gone) ≡ true
  unfolding after_report exists bytes_eq
  reported n failed gone e = rw e (ground (arith, bytes_eq_refl n))

  close_reports :
      (c : Container) (s : (W × List Bytes) × List Bytes)
      → (close m c s).0 ≡ none
      → Gone c.id (close m c s).1
  unfolding close control
  close_reports c s e =
      let args = text "rm" ∷ text "-f" ∷ c.id ∷ [] in
      let r = (host.docker false [] args s.0.0).0 in
      elim (Reply-cases (control_reply 4096 r.0 r.1)) [
        | inl (out, x) ↦ reported c.id r.1 s.0.1 (reply_ok 4096 r out x)
        | inr (y, x) ↦ absurd (ground (arith, x, e))
      ]

  -- The container is reported to be removed, or the session holds it.
  abbrev pub IsKept : Bytes → DockerSandbox → (W × List Bytes) × List Bytes → Type 0
  IsKept n d s = Gone n s ⊎ (compiler_of d ≡ some n)

  name_is :
      (n : Bytes) (d : DockerSandbox) (c : Container)
      → d.compile ≡ some c
      → compiler_of d ≡ some n
      → c.id ≡ n
  name_is n d c at h = ground (arith, at, h)

  -- What happens to the container `c` of the session while `Gone` is kept.
  retire_lem :
      (n : Bytes) (d : DockerSandbox) (c : Container) (out : Outcome) (r : Reply Bytes)
      (s : (W × List Bytes) × List Bytes)
      → d.compile ≡ some c
      → IsKept n d s
      → let ((r', d'), s') = retire m d c out r s in IsKept n d' s'
  retire_lem n d c out (err e) s at h = h
  retire_lem n d c out (ok archive) s at (inl gone) =
      inl (close_keeps m (Gone n) (noted-Upholds n) c s gone)
  retire_lem n d c out (ok archive) s at (inr held) = elim (Option-cases (close m c s).0) [
    | inl fine ↦
        inl (subst (λ x. Gone x (close m c s).1) (name_is n d c at held) (close_reports c s fine))
    | inr (e, failed) ↦ inr (rw failed held)
  ]

  compiled_lem :
      (n : Bytes) (cancelled : Bool) (d : DockerSandbox) (c : Container) (r : Reply Outcome)
      (s : (W × List Bytes) × List Bytes)
      → d.compile ≡ some c
      → IsKept n d s
      → let ((r', d'), s') = compiled m cancelled d c r s in IsKept n d' s'
  compiled_lem n cancelled d c (err e) s at h = h
  compiled_lem n cancelled d c (ok out) s at h = elim (Bool-cases (rejects out)) [
    | inl bad ↦ rw bad h
    | inr good ↦
        let (r, s') = build m cancelled d c s in
        rw good (
          retire_lem n d c out r s' at (elim h [
            | inl gone ↦ inl ((build_keeps m (Gone n) (noted-Upholds n) cancelled d c).at s gone)
            | inr held ↦ inr held
          ]))
  ]

  compile_with_lem :
      (n : Bytes) (cancelled : Bool) (d : DockerSandbox) (o : Option Container)
      (s : (W × List Bytes) × List Bytes)
      → d.compile ≡ o
      → IsKept n d s
      → let ((r, d'), s') = compile_with m cancelled d o s in IsKept n d' s'
  unfolding compile_in
  compile_with_lem n cancelled d none s at h = h
  compile_with_lem n cancelled d (some c) s at h =
      let (r, s') = execute m cancelled c (15 * second) [] (compiler d.language) s in
      compiled_lem n cancelled d c r s' at (elim h [
        | inl gone ↦ inl (
            (execute_keeps m (Gone n) (noted-Upholds n) cancelled c (15 * second) []
                (compiler d.language)).at
              s gone)
        | inr held ↦ inr held
      ])

  pub compile-IsKept :
      (n : Bytes) (cancelled : Bool) (d : DockerSandbox) (s : (W × List Bytes) × List Bytes)
      → IsKept n d s
      → let ((r, d'), s') = compile_sandbox m cancelled d s in IsKept n d' s'
  unfolding compile_sandbox
  compile-IsKept n cancelled d s h = compile_with_lem n cancelled d d.compile s refl h

  pub run-IsKept :
      (n : Bytes) (cancelled : Bool) (d : DockerSandbox) (input : Bytes)
      (s : (W × List Bytes) × List Bytes)
      → IsKept n d s
      → IsKept n d (run_sandbox m cancelled d input s).1
  run-IsKept n cancelled d input s (inl gone) =
      inl ((run_keeps m (Gone n) (noted-Upholds n) cancelled d input).at s gone)
  run-IsKept n cancelled d input s (inr held) = inr held

  close_with-IsKept :
      (n : Bytes) (d : DockerSandbox) (o : Option Container) (s : (W × List Bytes) × List Bytes)
      → d.compile ≡ o
      → IsKept n d s
      → let ((e, d'), s') = close_with m d o s in IsKept n d' s'
  close_with-IsKept n d none s at h = h
  close_with-IsKept n d (some c) s at (inl gone) =
      inl (close_keeps m (Gone n) (noted-Upholds n) c s gone)
  close_with-IsKept n d (some c) s at (inr held) = elim (Option-cases (close m c s).0) [
    | inl fine ↦
        inl (subst (λ x. Gone x (close m c s).1) (name_is n d c at held) (close_reports c s fine))
    | inr (e, failed) ↦ inr (rw failed held)
  ]

  pub close-IsKept :
      (n : Bytes) (d : DockerSandbox) (s : (W × List Bytes) × List Bytes)
      → IsKept n d s
      → let ((e, d'), s') = close_sandbox m d s in IsKept n d' s'
  unfolding close_sandbox
  close-IsKept n d s h = close_with-IsKept n d d.compile s refl h
