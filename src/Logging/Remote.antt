-- ===== src/Logging/Remote.antt =====
-- `LoggingService` as the remote calls see it: its annotated members, in the order of their
-- declaration.
use cpp26_experiments.Base.{ℕ, List, [], ◌∷◌, none, Bytes}
use cpp26_experiments.Reflect.Words.{Endian}
use cpp26_experiments.Reflect.Types.{integral, range, pointer, nil, cons}
use cpp26_experiments.Rpc.Outcome.{returned, defined, ◌>>=◌}
use cpp26_experiments.Rpc.Service.{Method, Handler, Member, function, custom}
use cpp26_experiments.Logging.Service.{
  Service, Location, on_spawn, on_exit, on_rename, on_set_parent, add_sink, remove_sink,
  handle_print,
}

abbrev pub spawn : Method Service
spawn = record {
  parameters = cons (integral 8) (cons (integral 8) nil);
  result = none;
  run = λ s args. (on_spawn args.0 args.1.0 s, tt);
}

abbrev pub exit : Method Service
exit = record {
  parameters = cons (integral 8) (cons (integral 8) nil);
  result = none;
  run = λ s args. (on_exit args.0 args.1.0 s, tt);
}

abbrev pub rename : Method Service
rename = record {
  parameters = cons (integral 8) (cons (integral 8) (cons (range (integral 1)) nil));
  result = none;
  run = λ s args. (on_rename args.0 args.1.0 args.1.1.0 s, tt);
}

abbrev pub set_parent : Method Service
set_parent = record {
  parameters = cons (integral 8) (cons (integral 8) (cons (integral 8) nil));
  result = none;
  run = λ s args. (on_set_parent args.0 args.1.0 args.1.1.0 s, tt);
}

abbrev pub add : Method Service
add = record {
  parameters = cons pointer nil;
  result = none;
  run = λ s args. (add_sink args.0 s, tt);
}

abbrev pub remove : Method Service
remove = record {
  parameters = cons pointer nil;
  result = none;
  run = λ s args. (remove_sink args.0 s, tt);
}

module _ (endian : Endian) (formatter : ℕ → Bytes → Location × Bytes) where
  abbrev pub print : Handler Service
  print = record {
    result = none;
    run = λ s bytes. (do s' ← defined (handle_print endian formatter bytes s); returned (s', tt));
  }

  abbrev pub members : List (Member Service)
  members =
      function spawn
      ∷ function exit
      ∷ function rename
      ∷ function set_parent
      ∷ function add
      ∷ function remove
      ∷ custom print
      ∷ []
