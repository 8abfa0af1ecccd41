-- ===== src/Tests/Demo.antt =====
-- services/demo-control at a run that ends after another one was started.
use inspect_element.Prelude.{refl, none, [], ◌∷◌}
use inspect_element.Prelude.Texts.{Text, codes, text_eq}
use inspect_element.Demo.State.{legit, overspend}
use inspect_element.Demo.Control.{missing, thrown, Job, post_run, end_run, parse_owner_address}
use inspect_element.Demo.Laws.{
  System, idle, Steps, stop, more, post, finish, here, there, Shows, last_run-Shows,
}

abbrev first_job : Job
first_job = record { scenario_id = codes "a"; scenario = legit; owner_address = none }

abbrev second_job : Job
second_job = record { scenario_id = codes "b"; scenario = overspend; owner_address = none }

abbrev checksum : Text → Text
checksum t = t

abbrev both_posted : System
both_posted = record {
  last =
      (post_run checksum overspend missing (codes "b") 2
        (post_run checksum legit missing (codes "a") 1 none).last_run).last_run;
  jobs = second_job ∷ first_job ∷ [];
  given = codes "b" ∷ codes "a" ∷ [];
}

first_failed : Steps checksum idle (record both_posted {
  last = end_run first_job (thrown (codes "boom")) both_posted.last;
  jobs = second_job ∷ [];
})
unfolding post_run parse_owner_address text_eq
first_failed =
    more
      (more (more stop (post legit missing (codes "a") 1 tt))
        (post overspend missing (codes "b") 2 (refl, tt)))
      (finish first_job (thrown (codes "boom")) (second_job ∷ []) (there here))

last_run-Shows_example :
    Shows (end_run first_job (thrown (codes "boom")) both_posted.last) (second_job ∷ [])
last_run-Shows_example = last_run-Shows checksum first_failed
