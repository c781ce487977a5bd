-- ===== src/Wl/Context/Loading.antt =====
-- The LOAD case of `Context::Execute` of p1/wl.cpp.
use cs564_projects.Prelude.{
  ℕ, Bool, true, false, List, [], some, ◌≡◌, refl, ◌∙◌, Bool-cases, Option-cases, inl, inr,
}
use cs564_projects.Prelude.Int.{negsuc}
use cs564_projects.Wl.Command.{Op, op_empty, op_load, Command}
use cs564_projects.Wl.Node.{empty}
use cs564_projects.Wl.Dictionary.{Dictionary, Files, load}
use cs564_projects.Wl.Dictionary.Load.{
  positions, load_lines-tree_of, tree_of, tree_of-positions, empty-IsTree, below-empty,
}
use cs564_projects.Wl.Context.{Context, report, dispatch, renew_after_load, print_result}
use cs564_projects.Wl.Context.Model.{
  Session, session_step, may_load, opened, Models, FilesFit, Agrees,
}

-- Before the load proper the dictionary is as the session says.
before_load :
    (p : Op) (d : Dictionary) (l : Bool)
    → d.is_loadable ≡ l
    → (l ≡ true → d.word_list ≡ empty)
    → ((renew_after_load p d).is_loadable ≡ (elim p [ op_load ↦ true | _ ↦ l ]))
      × ((elim p as (λ _. Bool) [ op_load ↦ true | _ ↦ l ]) ≡ true
          → (renew_after_load p d).word_list ≡ empty)
      × ((elim p as (λ _. Bool) [ op_load ↦ true | _ ↦ l ]) ≡ false → renew_after_load p d ≡ d)
unfolding renew_after_load
before_load op_load d l h k = (refl, λ _. refl, λ e. absurd (cc))
before_load op_empty d l h k = (h, k, λ _. refl)
before_load _ d l h k = (h, k, λ _. refl)

-- A load into an empty loadable dictionary.
load-Models :
    (files : Files) (path : List ℕ) (d : Dictionary) (c : Context)
    → FilesFit files
    → d.is_loadable ≡ true
    → d.word_list ≡ empty
    → (d' : Dictionary) × (load files d path ≡ some d')
      × Models
          (record c { dictionary = d'; prev_ops = op_load; result = negsuc 1 })
          (opened (files path))
unfolding load positions
load-Models files path d c fit l e = elim (Option-cases (files path)) [
  | inl absent ↦ (
    d,
    simp (load, l, absent),
    rw absent (record {
      tree = rw e empty-IsTree;
      holds = λ u. rw e (below-empty u);
      loadable = l;
      fresh = λ _. e;
      prev = refl;
      quiet = refl;
    }),
  )
  | inr (bytes, found) ↦
      let (small, early) = fit path bytes found in
      (
        record { word_list = tree_of bytes; is_loadable = false },
        rw (load, l, found, e, load_lines-tree_of bytes),
        rw found (record {
          tree = (tree_of-positions bytes [] small early).0;
          holds = λ u. (tree_of-positions bytes u small early).1;
          loadable = refl;
          fresh = λ h. absurd (cc);
          prev = refl;
          quiet = refl;
        }),
      )
]

pub report_quiet : (c : Context) → c.result ≡ negsuc 1 → report c.result ≡ []
unfolding report
report_quiet c h = rw h

pub load-Agrees :
    (files : Files) (command : Command) (c : Context) (s : Session)
    → FilesFit files
    → Models c s
    → (c' : Context) × (dispatch files op_load command c ≡ some c')
      × Agrees (print_result c').0 (print_result c').1 (session_step files op_load command s)
unfolding dispatch print_result
load-Agrees files command c s fit m =
    let (l, e, kept) = before_load c.prev_ops c.dictionary s.loadable m.loadable m.fresh in
    let same : (elim (c.prev_ops) as (λ _. Bool) [ op_load ↦ true | _ ↦ s.loadable ]) ≡ may_load s =
      rw m.prev in
    elim (Bool-cases (may_load s)) [
      | inl allowed ↦
          let d = renew_after_load c.prev_ops c.dictionary in
          let d_loadable : d.is_loadable ≡ true = l ∙ same ∙ allowed in
          let (d', loads, models) =
            load-Models files command.arg_1 d c fit d_loadable (e (same ∙ allowed)) in
          (
            record c { dictionary = d'; prev_ops = op_load },
            simp (dispatch, d_loadable, loads),
            rw allowed (record { models = models; prints = report_quiet c m.quiet }),
          )
      | inr refused ↦
          let d_full : (renew_after_load c.prev_ops c.dictionary).is_loadable ≡ false =
            l ∙ same ∙ refused in
          (
            record c { result = negsuc 0 },
            rw (dispatch, d_full, kept (same ∙ refused)),
            rw refused (record {
              models = record {
                tree = m.tree;
                holds = m.holds;
                loadable = m.loadable;
                fresh = m.fresh;
                prev = m.prev;
                quiet = refl;
              };
              prints = refl;
            }),
          )
    ]
