-- ===== src/Solver/Remote/Ending.antt =====
-- solver_capsolver.go and solver_flaresolverr.go: what a solution holds.
use text.Mathlib.Text.{◌==◌ as str_eq}
use text.Mathlib.TextEquality.{eq_iff}
use goddgs.Prelude.{
  ℕ, String, ◌≡◌, ◌≢◌, refl, ap, ◌∙◌, ◌⊎◌, inl, inr, false, ◌&&◌, Option, none, some, [], arith,
  Bool-cases, Option-cases, subst,
}
use goddgs.Failure.{GoError, nil, is_nil, is_nil-nil}
use goddgs.Net.{HttpRequest, HttpResponse, Reply, response, do_error}
use goddgs.Signal.{BlockInfo}
use goddgs.Client.{ChallengeSolution}
use goddgs.Solver.{extract_site_key, challenge_type}
use goddgs.Solver.Remote.{Remote, Progress, ready, broken, exchange, poll}
use goddgs.Solver.Remote.Polling.{poll_from-ready}
use goddgs.Solver.Remote.CapSolver.{
  CapSolverSolver, TaskResult, Coding, judge_task, ask_task, get_task_result, create_task,
  cap_solve,
}
use goddgs.Solver.Remote.FlareSolverr.{
  no_cookies, FlareSolverrSolver, FlareAnswer, judge_answer, flare_solve,
}

Reply-cases :
    (r : Reply)
    → ((resp : HttpResponse) × (err : GoError) × (r ≡ response resp err))
      ⊎ ((err : GoError) × (r ≡ do_error err))
Reply-cases (response resp err) = inl (resp, err, refl)
Reply-cases (do_error err) = inr (err, refl)

-- An answer that is neither a success without a token nor a failure without an error.
abbrev Sound : Progress → Type 0
Sound p = (p ≢ broken nil) × ((token : String) → p ≡ ready token → str_eq token "" ≡ false)

judge_task-Sound : (r : TaskResult) → Sound (judge_task r)
unfolding judge_task
judge_task-Sound r = ground arith

-- What a solver returns: an error and no solution, or a solution that holds what it has to.
pub data Answered (Good : ChallengeSolution → Type 0)
    : Option ChallengeSolution × GoError → Type 0 where
  refused : (err : GoError) → err ≢ nil → Answered Good (none, err)
  solved : (sol : ChallengeSolution) → Good sol → Answered Good (some sol, nil)

pub carried :
    {Good : ChallengeSolution → Type 0} {given out : Option ChallengeSolution × GoError}
    → some given ≡ some out
    → Answered Good given
    → Answered Good out
carried h ok = subst (Answered _) (cc h) ok

abbrev pub OnlyToken : ChallengeSolution → Type 0
OnlyToken sol = (sol.token ≢ "") × (sol.cookies ≡ []) × (sol.user_agent ≡ "")

abbrev pub Credentials : ChallengeSolution → Type 0
Credentials sol = (sol.cookies ≢ []) ⊎ (sol.user_agent ≢ "")

judge_answer-Answered : (a : FlareAnswer) → Answered Credentials (judge_answer a)
unfolding judge_answer
judge_answer-Answered a = elim (Bool-cases (str_eq a.status "ok")) [
  | inr failed ↦ rw (failed, judge_answer) (refused _ (λ h. cc))
  | inl ok ↦ elim (Bool-cases (no_cookies a.cookies && str_eq a.user_agent "")) [
    | inl useless ↦ rw (ok, useless, judge_answer) (refused _ (λ h. cc))
    | inr useful ↦
        rw (ok, useful, judge_answer) (solved _ (ground (arith, useful, eq_iff a.user_agent "")))
  ]
]

module _ {W : Type 0} (net : Remote W)
    (honest : (req : HttpRequest) (w : W) → (net.send req w).0 ≢ do_error nil) where
  -- A property of what is made of a reply, where an error of a call is not nil.
  pub exchange-by :
      {A : Type 0} (P : A → Type 0) (req : HttpRequest) (failed : GoError → A)
      (read : HttpResponse → GoError → A)
      → ((err : GoError) → is_nil err ≡ false → P (failed err))
      → ((resp : HttpResponse) (err : GoError) → P (read resp err))
      → (w : W) → P (exchange net req failed read w).0
  exchange-by P req failed read bad good w = elim (Bool-cases (is_nil (net.new_request req))) [
    | inr broken_request ↦ rw broken_request (bad _ broken_request)
    | inl fine ↦ elim (Reply-cases (net.send req w).0) [
      | inl (resp, err, e) ↦ rw (fine, e) (good resp err)
      | inr (err, e) ↦ elim (Bool-cases (is_nil err)) [
        | inl quiet ↦ absurd (honest req w (e ∙ ap do_error (is_nil-nil err quiet)))
        | inr loud ↦ rw (fine, e) (bad err loud)
      ]
    ]
  ]

  module _ (json : Coding) (c : CapSolverSolver) where
    ask_task-Sound : (task_id : String) (w : W) → Sound (ask_task net json c task_id w).0
    unfolding ask_task
    ask_task-Sound task_id =
        exchange-by Sound _ broken _
          (λ err loud. (λ h. let quiet : err ≡ nil = cc h in cc (ap is_nil quiet), λ token h. cc))
          (λ resp err. elim (Bool-cases (is_nil (json.decode_result resp err).1)) [
            | inl parsed ↦ rw parsed (judge_task-Sound (json.decode_result resp err).0)
            | inr unread ↦ rw unread (λ h. cc, λ token h. cc)
          ])

    get_task_result-token :
        (fuel : ℕ) (task_id token : String) (w : W)
        → (get_task_result net json c fuel task_id w).0 ≡ some (token, nil)
        → str_eq token "" ≡ false
    unfolding get_task_result poll
    get_task_result-token fuel task_id token w h =
        let sound = ask_task-Sound task_id in
        let (w', e) =
          poll_from-ready net (ask_task net json c task_id) (λ w'. (sound w').0) c.poll_interval
            c.poll_timeout _ fuel (net.now w).1 token h in
        (sound w').1 token e

    -- Whatever the service says, `CapSolverSolver.Solve` returns an error and no solution, or no error
    -- and a solution with a token that is not empty, without cookies and without a user agent.
    pub cap_solve-Answered :
        (fuel : ℕ) (page_url : String) (info : BlockInfo) (body : String) (w : W)
        (out : Option ChallengeSolution × GoError)
        → (cap_solve net json c fuel page_url info body w).0 ≡ some out
        → Answered OnlyToken out
    unfolding cap_solve
    cap_solve-Answered fuel page_url info body w out h =
        let ((task_id, err), w1) =
          create_task net json c page_url (extract_site_key net.find body)
            (challenge_type net.matches body info.signal) w in
        elim (Bool-cases (is_nil err)) [
          | inr not_made ↦ carried (rw (not_made, cap_solve) at h) (refused _ (λ e. cc))
          | inl made ↦ elim (Option-cases (get_task_result net json c fuel task_id w1).0) [
            | inl dry ↦ cc (rw (made, dry, cap_solve) at h)
            | inr ((token, failure), e) ↦ elim (Bool-cases (is_nil failure)) [
              | inr lost ↦ carried (rw (made, e, lost, cap_solve) at h) (refused _ (λ e'. cc))
              | inl won ↦
                  let full =
                    get_task_result-token fuel task_id token w1
                      (e ∙ ap (λ f. some (token, f)) (is_nil-nil failure won)) in
                  carried (rw (made, e, won, cap_solve) at h)
                    (solved _ (ground (arith, eq_iff token "", full), refl, refl))
            ]
          ]
        ]

  -- Whatever `FlareSolverr` says, `Solve` returns an error and no solution, or no error and a solution
  -- that holds a cookie or a user agent.
  pub flare_solve-Answered :
      (marshal : String → String → ℕ → String)
      (decode : HttpResponse → GoError → FlareAnswer × GoError) (f : FlareSolverrSolver)
      (page_url : String) (info : BlockInfo) (body : String) (w : W)
      → Answered Credentials (flare_solve net marshal decode f page_url info body w).0
  unfolding flare_solve
  flare_solve-Answered marshal decode f page_url info body =
      exchange-by (Answered Credentials) _ _ _ (λ err loud. refused _ (λ h. cc))
        (λ resp err. elim (Bool-cases (is_nil (decode resp err).1)) [
          | inl parsed ↦ rw parsed (judge_answer-Answered (decode resp err).0)
          | inr unread ↦ rw unread (refused _ (λ h. cc))
        ])
