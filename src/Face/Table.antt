-- ===== src/Face/Table.antt =====
-- The table `faceJson` of http/example/file_server/www/js/face.js.
use cortono.Prelude.{Text, codes, List, [], ◌∷◌}
use cortono.Face.Defs.{Face}

abbrev named : Text → Text → Face
named face_id title = record { face_id = face_id; title = title }

abbrev pub face_json : List Face
face_json =
    named (codes "face0") (codes "微笑")
    ∷ named (codes "face1") (codes "撇嘴")
    ∷ named (codes "face2") (codes "色")
    ∷ named (codes "face3") (codes "发呆")
    ∷ named (codes "face4") (codes "得意")
    ∷ named (codes "face5") (codes "流泪")
    ∷ named (codes "face6") (codes "害羞")
    ∷ named (codes "face7") (codes "闭嘴")
    ∷ named (codes "face8") (codes "睡")
    ∷ named (codes "face9") (codes "大哭")
    ∷ named (codes "face10") (codes "尴尬")
    ∷ named (codes "face11") (codes "发怒")
    ∷ named (codes "face12") (codes "调皮")
    ∷ named (codes "face13") (codes "呲牙")
    ∷ named (codes "face14") (codes "惊讶")
    ∷ named (codes "face15") (codes "难过")
    ∷ named (codes "face16") (codes "酷")
    ∷ named (codes "face17") (codes "冷汗")
    ∷ named (codes "face18") (codes "抓狂")
    ∷ named (codes "face19") (codes "吐")
    ∷ named (codes "face20") (codes "偷笑")
    ∷ named (codes "face21") (codes "可爱")
    ∷ named (codes "face22") (codes "白眼")
    ∷ named (codes "face23") (codes "傲慢")
    ∷ named (codes "face24") (codes "饥饿")
    ∷ named (codes "face25") (codes "困")
    ∷ named (codes "face26") (codes "惊恐")
    ∷ named (codes "face27") (codes "流汗")
    ∷ named (codes "face28") (codes "憨笑")
    ∷ named (codes "face29") (codes "装逼")
    ∷ named (codes "face30") (codes "奋斗")
    ∷ named (codes "face31") (codes "咒骂")
    ∷ named (codes "face32") (codes "疑问")
    ∷ named (codes "face33") (codes "嘘")
    ∷ named (codes "face34") (codes "晕")
    ∷ named (codes "face35") (codes "折磨")
    ∷ named (codes "face36") (codes "衰")
    ∷ named (codes "face37") (codes "骷髅")
    ∷ named (codes "face38") (codes "敲打")
    ∷ named (codes "face39") (codes "再见")
    ∷ named (codes "face40") (codes "擦汗")
    ∷ named (codes "face41") (codes "抠鼻")
    ∷ named (codes "face42") (codes "鼓掌")
    ∷ named (codes "face43") (codes "糗大了")
    ∷ named (codes "face44") (codes "坏笑")
    ∷ named (codes "face45") (codes "左哼哼")
    ∷ named (codes "face46") (codes "右哼哼")
    ∷ named (codes "face47") (codes "哈欠")
    ∷ named (codes "face48") (codes "鄙视")
    ∷ named (codes "face49") (codes "委屈")
    ∷ named (codes "face50") (codes "快哭了")
    ∷ named (codes "face51") (codes "阴险")
    ∷ named (codes "face52") (codes "亲亲")
    ∷ named (codes "face53") (codes "吓")
    ∷ named (codes "face54") (codes "可怜")
    ∷ named (codes "face55") (codes "菜刀")
    ∷ named (codes "face56") (codes "西瓜")
    ∷ named (codes "face57") (codes "啤酒")
    ∷ named (codes "face58") (codes "篮球")
    ∷ named (codes "face59") (codes "乒乓")
    ∷ named (codes "face60") (codes "咖啡")
    ∷ named (codes "face61") (codes "饭")
    ∷ named (codes "face62") (codes "猪头")
    ∷ named (codes "face63") (codes "玫瑰")
    ∷ named (codes "face64") (codes "凋谢")
    ∷ named (codes "face65") (codes "示爱")
    ∷ named (codes "face66") (codes "爱心")
    ∷ named (codes "face67") (codes "心碎")
    ∷ named (codes "face68") (codes "蛋糕")
    ∷ named (codes "face69") (codes "闪电")
    ∷ named (codes "face70") (codes "炸弹")
    ∷ named (codes "face71") (codes "刀")
    ∷ named (codes "face72") (codes "足球")
    ∷ named (codes "face73") (codes "瓢虫")
    ∷ named (codes "face74") (codes "便便")
    ∷ named (codes "face75") (codes "月亮")
    ∷ named (codes "face76") (codes "太阳")
    ∷ named (codes "face77") (codes "礼物")
    ∷ named (codes "face78") (codes "拥抱")
    ∷ named (codes "face79") (codes "赞")
    ∷ named (codes "face80") (codes "踩")
    ∷ named (codes "face81") (codes "握手")
    ∷ named (codes "face82") (codes "胜利")
    ∷ named (codes "face83") (codes "抱拳")
    ∷ named (codes "face84") (codes "勾引")
    ∷ named (codes "face85") (codes "拳头")
    ∷ named (codes "face86") (codes "差劲")
    ∷ named (codes "face87") (codes "爱你")
    ∷ named (codes "face88") (codes "NO")
    ∷ named (codes "face89") (codes "OK")
    ∷ named (codes "face90") (codes "爱情")
    ∷ named (codes "face91") (codes "飞吻")
    ∷ named (codes "face92") (codes "跳跳")
    ∷ named (codes "face93") (codes "发抖")
    ∷ named (codes "face94") (codes "怄火")
    ∷ named (codes "face95") (codes "转圈")
    ∷ named (codes "face96") (codes "磕头")
    ∷ named (codes "face97") (codes "回头")
    ∷ named (codes "face98") (codes "跳绳")
    ∷ named (codes "face99") (codes "挥手")
    ∷ []
