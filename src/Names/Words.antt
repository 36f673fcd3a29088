-- ===== src/Names/Words.antt =====
-- The words from which static/chatroomwidget.js suggests a nickname.
use websockethub.Base.{List, [], ◌∷◌, ◌++◌, ◌==◌, true, false}
use websockethub.Text.{Text, text}

-- `s.split(' ')`, without empty words.
close : Text → List Text → List Text
close [] ws = ws
close (c ∷ w) ws = (c ∷ w) ∷ ws

words_from : Text → Text → List Text
words_from w [] = close w []
words_from w (c ∷ s) = elim (c == b' ') [
  | true ↦ close w (words_from [] s)
  | false ↦ words_from (w ++ c ∷ []) s
]

unfoldable pub words : Text → List Text
unfolding words_from close
words = words_from []

unfoldable pub adjectives : List Text
unfolding words
adjectives =
    words
      (text "grouchy compassionate buoyant remote required growing impeccable indolent worried ")
    ++ words
        (text "pretty unique darling next impressive hard unhappy pungent scratchy elliptical ")
    ++ words
        (text "ideal perfect ashamed unimportant front wrathful impossible frightening hidden ")
    ++ words (text "glass vigilant clear actual thorny daring limited sizzling baggy expensive ")
    ++ words (text "haunting silly delirious beneficial harmful cheery different frigid both ")
    ++ words
        (text "celebrated inconsequential pleased oval improbable close profuse foolhardy flimsy ")
    ++ words
        (text "fresh edible loyal sweltering weighty robust arctic testy courageous better prime ")
    ++ words
        (text "striped enormous alienated nasty tangible distant hairy terrible astonishing blue ")
    ++ words
        (text "acclaimed oblong supportive rusty severe golden bleak watery pesky jumpy single ")
    ++ words
        (text "anguished interesting extra-small kindhearted intent tan lanky biodegradable minty ")
    ++ words
        (text "polished soggy grizzled bright vibrant shy focused worthless frozen monthly windy ")
    ++ words (text "neighboring disastrous dreary incompatible gregarious sorrowful quick-witted ")
    ++ words
        (text "everlasting flawless informal snappy wiggly forsaken mealy klutzy twin discrete ")
    ++ words (text "lustrous swift similar unnatural gross regular remorseful same pastel flashy ")
    ++ words
        (text "nautical lazy sunny equatorial devoted frequent glittering talkative ringed fickle ")
    ++ words (text "cumbersome overjoyed late flaky exemplary glossy tinted conscious classic ")
    ++ words
        (text "trustworthy infinite witty trim knotty half educated medium juicy favorite female ")
    ++ words
        (text "blond worldly complicated motherly tough short-term warmhearted failing delayed ")
    ++ words
        (text "bite-sized vast inferior quarterly yawning sour weepy free poor tragic stylish ")
    ++ words
        (text "outstanding wee mixed cool bony metallic this each odd quick assured ill-fated ")
    ++ words (text "jaunty extraneous quarrelsome scary adolescent dizzy square palatable noisy ")
    ++ words (text "massive rash memorable rowdy perky adept nifty super ornate teeming crowded ")
    ++ words
        (text "international uncomfortable mushy petty phony profitable well-made sugary spotted ")
    ++ words
        (text "appropriate melodic average distant ugly worrisome evergreen faraway circular tidy ")
    ++ words (text "grand indelible rotating brave limp knowing gorgeous authentic vapid corrupt ")
    ++ words (text "imperfect physical subtle humongous")

unfoldable pub nouns : List Text
unfolding words
nouns =
    words (text "bear jail hospital babies time poison kitty airport substance peace shape crook ")
    ++ words (text "frame work letter zebra regret lamp brass eyes respect stick pleasure ")
    ++ words (text "representative shade form pie tax trees veil agreement holiday visitor judge ")
    ++ words
        (text "bucket soap passenger government dime mouth approval cakes ice playground brain ")
    ++ words
        (text "space language channel cream pipe cough hill control smash stone rings star baby ")
    ++ words (text "head sisters lip mice land morning parent riddle stream exchange son faucet ")
    ++ words
        (text "development force aunt kick love direction prose trousers neck desk breath grass ")
    ++ words
        (text "guide pigs zoo father kiss pizzas gun action kettle daughter night lace punishment ")
    ++ words
        (text "ghost writer nest river wing print existence prison amusement bone cushion comb ")
    ++ words
        (text "throat wood back alley base profit health hobbies boot body spring advice fall ")
    ++ words (text "spade word end brother debt account country servant apples suit cactus powder ")
    ++ words
        (text "field anger grip umbrella birds brick help noise marble teeth beginner owner patch ")
    ++ words
        (text "tooth cup border kittens stop transport wealth trick motion volleyball lizards ")
    ++ words
        (text "cellar bread jellyfish harbor discovery dirt oven bikes yard insurance boats boy ")
    ++ words
        (text "game brush spark clock women baseball stretch soup cub brothers rub order tendency ")
    ++ words
        (text "alarm face vase earthquake lunch seed caption top invention eggs carriage frog ")
    ++ words
        (text "fuel cover celery plants volcano ball ray flame meat cook suggestion iron event ")
    ++ words
        (text "salt notebook market throne attempt pet doll nerve argument snake stomach ducks ")
    ++ words
        (text "cemetery sidewalk self trains queen beef zinc flag things payment rabbit pocket ")
    ++ words
        (text "canvas eggnog pail brake treatment smile sugar history rainstorm crib hose tramp ")
    ++ words (text "rate metal rice story farm street mine bait")
