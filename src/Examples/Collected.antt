-- ===== src/Examples/Collected.antt =====
-- The outputs of collectors: a mapping as text, one in a list of its own, and a list of two.
use oscal_aap_ansible_playbo.Prelude.{String, ◌≡◌, refl, [], ◌∷◌, if◌then◌else◌, str_eq}
use oscal_aap_ansible_playbo.Py.Text.{strip, decimal}
use oscal_aap_ansible_playbo.Py.Value.{Value, str, list, dict}
use oscal_aap_ansible_playbo.Py.Result.{Result, ok, raise}
use oscal_aap_ansible_playbo.PsObject.{Recovery, fail, recovered, ps_object}
use oscal_aap_ansible_playbo.PsObject.Honest.{Emitted, Told, ps_object-Told}

abbrev os_facts : Value
os_facts = dict (("os", str "11") ∷ [])

-- A stand-in for the parser: three texts are known to it.
unfoldable parse : String → Result Value
unfolding str_eq
parse s =
    if str_eq s "{os}"
    then ok os_facts
    else if str_eq s "[{os}]"
    then ok (list (os_facts ∷ []))
    else if str_eq s "[{os},{os}]"
    then ok (list (os_facts ∷ os_facts ∷ []))
    else raise (record { kind = "JSONDecodeError"; message = "Expecting value" })

abbrev emitted : String → Value
emitted s = list (str s ∷ [])

bare : ps_object parse (emitted " {os} ") "mapping" ≡ ok (recovered os_facts)
unfolding ps_object parse strip
bare = refl

wrapped : ps_object parse (emitted "[{os}]") "mapping" ≡ ok (recovered os_facts)
unfolding ps_object parse strip
wrapped = refl

two :
    ps_object parse (emitted "[{os},{os}]") "mapping"
    ≡ ok (fail "expected one mapping, got a 2-element array")
unfolding ps_object parse strip decimal
two = refl

any_list :
    ps_object parse (emitted "[{os},{os}]") "any" ≡ ok (recovered (list (os_facts ∷ os_facts ∷ [])))
unfolding ps_object parse strip
any_list = refl

silent :
    ps_object parse (list []) "mapping"
    ≡ ok (fail "the collector produced no output; check the task's `error`")
unfolding ps_object
silent = refl

ps_object-Told_example :
    (r : Recovery) × (ps_object parse (emitted "[{os}]") "mapping" ≡ ok r)
    × Told parse (Emitted parse (emitted "[{os}]")) r
ps_object-Told_example = ps_object-Told parse (emitted "[{os}]")
