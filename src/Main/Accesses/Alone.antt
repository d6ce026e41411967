-- ===== src/Main/Accesses/Alone.antt =====
-- Either thread alone does what its round does.
use dss_vdc_venta.Main.Push.{Report, push_sensor_data, pushed, PushResult, out_of_bounds, running}
use dss_vdc_venta.Prelude.{
  ◌>>=◌, none, ℕ, suc, ◌≤◌, zero, ◌++◌, Bool-cases, inr, [], arith, inl, ap, ◌∙◌, sym, append-nil,
  ◌∷◌, subst, ◌==◌, Option-cases,
}
use dss_vdc_venta.Prelude.{Bool, Option, if◌then◌else◌, ◌≡◌, List, true, false, some, refl}
use dss_vdc_venta.Main.Accesses.{
  Head, presence_head, locked_head, round_head, finished, reports, Fine, main_step, head_of, at_top,
  at_test, at_unlock, at_clear, at_push, after_pushed, top_step, after_head, at_free,
}
use dss_vdc_venta.Main.Loop.{
  Round, signal_presence, locked_round, main_round, Call, report_changes, try_lock, round_of,
  released, after_push, push_property,
}
use dss_vdc_venta.Types.{Globals, VentaVdcd, Mutex, main_thread, SensorValue}

abbrev resume : Round → Head → Option (Globals × List Call)
resume r (finished g calls) = some (g, calls)
resume r (reports d g) = report_changes r d g

resume-if :
    (r : Round) (b : Bool) (x y : Head)
    → resume r (if b then x else y) ≡ (if b then resume r x else resume r y)
resume-if r true x y = refl
resume-if r false x y = refl

resume-locked_head :
    (r : Round) (d : VentaVdcd) (g : Globals) → resume r (locked_head r d g) ≡ locked_round r d g
unfolding locked_round locked_head signal_presence presence_head
resume-locked_head r d g = simp resume-if

abbrev resumed : Round → Option Head → Option (Globals × List Call)
resumed r none = none
resumed r (some h) = resume r h

resumed-head_of :
    (r : Round) (m : Option Mutex) (d : Option VentaVdcd) (g : Globals)
    → resumed r (head_of r m d g) ≡ round_of r m d g
resumed-head_of r none d g = refl
resumed-head_of r (some m) none g = refl
resumed-head_of r (some m) (some d) g = resume-locked_head r d (record g { network_mutex = m })

-- The round is its head and then the report.
main_round-round_head : (r : Round) (g : Globals) → resumed r (round_head r g) ≡ main_round r g
unfolding main_round round_head
main_round-round_head r g = resumed-head_of r (try_lock main_thread g.network_mutex) g.device g

-- So many accesses of the main thread, in one round.
unfoldable pub main_steps : ℕ → Round → Fine → Option Fine
main_steps zero r x = some x
main_steps (suc n) r x = do x' ← main_step r x; main_steps n r x'

abbrev pub round_over : Fine → Globals × List Call → Fine
round_over x (g, calls) = record x { globals = g; main = at_top; calls = x.calls ++ calls }

next_step :
    (n : ℕ) (r : Round) (x x' : Fine) (o : Option Fine)
    → main_step r x ≡ some x'
    → main_steps n r x' ≡ o
    → main_steps (suc n) r x ≡ o
unfolding main_steps
next_step n r x x' o first later = rw first later

main_steps-zero : (r : Round) (x : Fine) → main_steps 0 r x ≡ some x
unfolding main_steps
main_steps-zero r x = refl

-- So many accesses end the round with this result.
abbrev pub EndsRound : ℕ → Round → Fine → Fine → Globals × List Call → Type 0
EndsRound most r x from result =
    (n : ℕ) × (n ≤ most) × (main_steps n r from ≡ some (round_over x result))

unchanged-EndsRound :
    (r : Round) (d : VentaVdcd) (x : Fine)
    → x.globals.network_changes ≡ false
    → EndsRound 4 r x (record x { main = at_test d }) (released x.globals, [])
unfolding main_step
unchanged-EndsRound r d x same = (
  2,
  omega arith,
  next_step 1 r (record x { main = at_test d }) (record x { main = at_unlock }) _
      (ap (λ (b : Bool). some (record x { main = if b then at_clear d else at_unlock })) same)
      (next_step 0 r (record x { main = at_unlock })
        (record x { globals = released x.globals; main = at_top }) _ refl
        (main_steps-zero r (record x { globals = released x.globals; main = at_top })
          ∙ ap
              (λ (calls : List Call).
                some (record x { globals = released x.globals; main = at_top; calls = calls }))
              (sym (append-nil x.calls)))),
)

abbrev cleared_flag : Fine → Fine
cleared_flag x = record x { globals = record x.globals { network_changes = false } }

changed-EndsRound :
    (r : Round) (d : VentaVdcd) (x : Fine) (values : List SensorValue) (rs : List Report)
    → x.globals.network_changes ≡ true
    → push_sensor_data r.fuel r.new_ok r.now x.globals.humifier.sensor_values ≡ pushed values rs
    → (result : Globals × List Call) × (after_push d x.globals (pushed values rs) ≡ some result)
      × EndsRound 4 r x (record x { main = at_test d }) result
unfolding main_step
changed-EndsRound r d x values rs changed ends =
    let g = record x.globals {
      humifier = record x.globals.humifier { sensor_values = values };
      network_changes = false;
    } in
    let calls = x.calls ++ push_property d.dsuidstring rs ∷ [] in
    let y = cleared_flag x in
    (
      (released g, push_property d.dsuidstring rs ∷ []),
      refl,
      (
        4,
        omega arith,
        next_step 3 r (record x { main = at_test d }) (record x { main = at_clear d }) _
            (ap (λ (b : Bool). some (record x { main = if b then at_clear d else at_unlock }))
              changed)
            (next_step 2 r (record x { main = at_clear d }) (record y { main = at_push d }) _ refl
              (next_step 1 r (record y { main = at_push d })
                (record x { globals = g; main = at_unlock; calls = calls }) _
                (ap (after_pushed d (record y { main = at_push d })) ends)
                (next_step 0 r (record x { globals = g; main = at_unlock; calls = calls })
                  (record x { globals = released g; main = at_top; calls = calls }) _ refl
                  (main_steps-zero r
                    (record x { globals = released g; main = at_top; calls = calls }))))),
      ),
    )

-- From the test of the flag on.
report-EndsRound :
    (r : Round) (d : VentaVdcd) (x : Fine) (result : Globals × List Call)
    → report_changes r d x.globals ≡ some result
    → EndsRound 4 r x (record x { main = at_test d }) result
unfolding report_changes
report-EndsRound r d x result e = elim (Bool-cases x.globals.network_changes) [
  | inr same ↦
      let e' : some (released x.globals, []) ≡ some result =
        sym (
          ap
            (λ (b : Bool).
              if b
              then after_push d x.globals
                  (push_sensor_data r.fuel r.new_ok r.now x.globals.humifier.sensor_values)
              else some (released x.globals, []))
            same)
        ∙ e in
      let ends : (released x.globals, []) ≡ result = cc e' in
      subst (EndsRound 4 r x (record x { main = at_test d })) ends (unchanged-EndsRound r d x same)
  | inl changed ↦
      let e' =
        sym (
          ap
            (λ (b : Bool).
              if b
              then after_push d x.globals
                  (push_sensor_data r.fuel r.new_ok r.now x.globals.humifier.sensor_values)
              else some (released x.globals, []))
            changed)
        ∙ e in
      pushed-EndsRound r d x result
        (push_sensor_data r.fuel r.new_ok r.now x.globals.humifier.sensor_values) changed refl e'
]
  where
    pushed-EndsRound :
        (r : Round) (d : VentaVdcd) (x : Fine) (result : Globals × List Call) (o : PushResult)
        → x.globals.network_changes ≡ true
        → push_sensor_data r.fuel r.new_ok r.now x.globals.humifier.sensor_values ≡ o
        → after_push d x.globals o ≡ some result
        → EndsRound 4 r x (record x { main = at_test d }) result
    pushed-EndsRound r d x result (pushed values rs) changed ends e =
        let (result', there, over) = changed-EndsRound r d x values rs changed ends in
        let same : result' ≡ result = cc (there, e) in
        subst (EndsRound 4 r x (record x { main = at_test d })) same over
    pushed-EndsRound r d x result out_of_bounds changed ends e = absurd (cc e)
    pushed-EndsRound r d x result running changed ends e = absurd (cc e)

first_step :
    (r : Round) (x : Fine) (h : Head)
    → (x.globals.shutdown_flag == 0) ≡ true
    → round_head r x.globals ≡ some h
    → main_step r (record x { main = at_top }) ≡ some (after_head x h)
unfolding main_step top_step
first_step r x h goes_on there =
    ap
      (λ (b : Bool).
        if b
        then (round_head r x.globals >>= λ h'. some (after_head x h'))
        else some (record x { main = at_free }))
      goes_on
    ∙ ap (λ (o : Option Head). o >>= λ h'. some (after_head x h')) there

head-EndsRound :
    (r : Round) (x : Fine) (result : Globals × List Call) (h : Head)
    → (x.globals.shutdown_flag == 0) ≡ true
    → round_head r x.globals ≡ some h
    → resume r h ≡ some result
    → EndsRound 5 r x (record x { main = at_top }) result
head-EndsRound r x result (finished g calls) goes_on there e =
    let same : (g, calls) ≡ result = cc e in
    (
      1,
      omega arith,
      next_step 0 r (record x { main = at_top }) (round_over x (g, calls)) _
          (first_step r x (finished g calls) goes_on there)
          (main_steps-zero r (round_over x (g, calls))
            ∙ ap (λ (res : Globals × List Call). some (round_over x res)) same),
    )
head-EndsRound r x result (reports d g) goes_on there e =
    let (n, few, ran) = report-EndsRound r d (record x { globals = g }) result e in
    (
      suc n,
      omega arith,
      next_step n r (record x { main = at_top }) (record x { globals = g; main = at_test d }) _
          (first_step r x (reports d g) goes_on there) ran,
    )

-- While no signal was caught, a round of the main loop that returns is at most five accesses of the
-- main thread: alone they lead to the same globals and the same calls of the library.
pub main_round-accesses :
    (r : Round) (x : Fine) (result : Globals × List Call)
    → (x.globals.shutdown_flag == 0) ≡ true
    → main_round r x.globals ≡ some result
    → EndsRound 5 r x (record x { main = at_top }) result
main_round-accesses r x result goes_on ran = elim (Option-cases (round_head r x.globals)) [
  | inl fault ↦
      let e = ap (resumed r) (sym fault) ∙ main_round-round_head r x.globals ∙ ran in absurd (cc e)
  | inr (h, there) ↦
      head-EndsRound r x result h goes_on there
        (ap (resumed r) (sym there) ∙ main_round-round_head r x.globals ∙ ran)
]
